-- ===== src/Ssrf/Resolve.antt =====
-- What the resolver hands to the connector.
use mathlib.Core.Path.{subst}
use mathlib.Core.List.{append-nil}
use corx.Error.{IpAddr, ProxyError, Result, ok, err, ok-injective}
use corx.Prelude.{
  ℕ, ◌≡◌, refl, ap, ◌⊎◌, inl, inr, true, false, ◌&&◌, ◌||◌, not, Option, none, some, List, [], ◌∷◌,
  ◌++◌, Text, codes, is_empty, if◌then◌else◌, arith, All,
}
use corx.Ssrf.{
  IpNets, SsrfGuard, SocketAddr, canonicalise, is_ipv6, check_ip, visit, collect, conclude, resolve,
}
use corx.Ssrf.Admission.{check_ip-admissible, admissible, evaluate-admits}

module _ (nets : IpNets) where
  -- The admissible addresses of a lookup in their order, in canonical form, with the port.
  unfoldable pub candidates : SsrfGuard nets → ℕ → List IpAddr → List SocketAddr
  candidates guard port [] = []
  candidates guard port (raw ∷ lookup) =
      let rest = candidates guard port lookup in
      if admissible nets guard (canonicalise raw)
      then (record { ip = canonicalise raw; port = port }) ∷ rest
      else rest

  -- The last address of a lookup that was refused for its network.
  unfoldable pub last_refused : SsrfGuard nets → Option ProxyError → List IpAddr → Option ProxyError
  last_refused guard last [] = last
  last_refused guard last (raw ∷ lookup) =
      last_refused guard
        (if (guard.allow_ipv6 || not (is_ipv6 (canonicalise raw)))
            && not (admissible nets guard (canonicalise raw))
          then some (ProxyError.ssrf_blocked (canonicalise raw))
          else last)
        lookup

  visit-admissible :
      (guard : SsrfGuard nets) (port : ℕ) (ip : IpAddr)
      (found : List SocketAddr × Option ProxyError)
      → visit nets guard port ip found ≡ (
          if admissible nets guard ip
          then (found.0 ++ (record { ip = ip; port = port } ∷ []), found.1)
          else (
            found.0,
            if (guard.allow_ipv6 || not (is_ipv6 ip)) && not (admissible nets guard ip)
                then some (ProxyError.ssrf_blocked ip)
                else found.1,
          ))
  unfolding visit admissible
  visit-admissible guard port ip found = ground (arith, evaluate-admits nets guard ip)

  snoc-append {ℓ} :
      {A : Type ℓ} (xs : List A) (y : A) (ys : List A) → (xs ++ (y ∷ [])) ++ ys ≡ xs ++ (y ∷ ys)
  snoc-append [] y ys = refl
  snoc-append (x ∷ xs) y ys = ap (◌∷◌ x) (snoc-append xs y ys)

  collect-candidates :
      (guard : SsrfGuard nets) (port : ℕ) (lookup : List IpAddr)
      (found : List SocketAddr × Option ProxyError)
      → collect nets guard port lookup found
        ≡ (found.0 ++ candidates guard port lookup, last_refused guard found.1 lookup)
  unfolding collect candidates last_refused
  collect-candidates guard port [] found = ground (arith, append-nil found.0)
  collect-candidates guard port (raw ∷ lookup) found = ground (
    arith,
    visit-admissible guard port (canonicalise raw) found,
    collect-candidates guard port lookup (visit nets guard port (canonicalise raw) found),
    snoc-append found.0 (record { ip = canonicalise raw; port = port })
        (candidates guard port lookup),
  )

  -- What `resolve` answers with on the addresses of a lookup: the admissible ones, or an error.
  unfoldable pub answer : SsrfGuard nets → Text → ℕ → List IpAddr → Result (List SocketAddr)
  answer guard host port lookup =
      if not (is_empty (candidates guard port lookup))
      then ok (candidates guard port lookup)
      else elim (last_refused guard none lookup) [
        | some e ↦ err e
        | none ↦ err (ProxyError.dns host (codes "no usable address returned by resolver"))
      ]

  -- For a host that is not an address, the connector gets exactly the admissible addresses of the
  -- lookup, in canonical form and in their order, and never an empty list: if there are none, the
  -- answer is an error, that of the last address refused for its network if there is one.
  pub resolve-answer :
      (parse_ip : Text → Option IpAddr) (lookup_ip : Text → Text ⊎ List IpAddr)
      (guard : SsrfGuard nets) (host : Text) (port : ℕ) (lookup : List IpAddr)
      → parse_ip host ≡ none
      → lookup_ip host ≡ inr lookup
      → resolve nets parse_ip lookup_ip guard host port ≡ answer guard host port lookup
  unfolding resolve answer conclude
  resolve-answer parse_ip lookup_ip guard host port lookup p l =
      ground (arith, collect-candidates guard port lookup ([], none))

  abbrev Admitted : SsrfGuard nets → SocketAddr → Type 0
  Admitted guard addr = admissible nets guard addr.ip ≡ true

  candidates-All :
      (guard : SsrfGuard nets) (port : ℕ) (lookup : List IpAddr)
      → All (Admitted guard) (candidates guard port lookup)
  unfolding candidates
  candidates-All guard port [] = tt
  candidates-All guard port (raw ∷ lookup) = ground (arith, candidates-All guard port lookup)

  IsGuarded : SsrfGuard nets → List SocketAddr → Type 0
  IsGuarded guard addrs = (is_empty addrs ≡ false) × All (Admitted guard) addrs

  literal-IsGuarded :
      (guard : SsrfGuard nets) (ip canonical : IpAddr) (port : ℕ)
      → check_ip nets guard ip ≡ ok canonical
      → IsGuarded guard (record { ip = canonical; port = port } ∷ [])
  unfolding IsGuarded
  literal-IsGuarded guard ip canonical port e =
      (refl, (ground (arith, check_ip-admissible nets guard ip), tt))

  answer-IsGuarded :
      (guard : SsrfGuard nets) (host : Text) (port : ℕ) (lookup : List IpAddr)
      (addrs : List SocketAddr)
      → answer guard host port lookup ≡ ok addrs
      → IsGuarded guard addrs
  unfolding IsGuarded answer
  answer-IsGuarded guard host port lookup addrs e = ground (arith, candidates-All guard port lookup)

  literal-answer :
      (guard : SsrfGuard nets) (ip : IpAddr) (port : ℕ) (addrs : List SocketAddr)
      (r : Result IpAddr)
      → check_ip nets guard ip ≡ r
      → (elim r [ err e ↦ err e | ok canonical ↦ ok (record { ip = canonical; port = port } ∷ []) ])
        ≡ ok addrs
      → IsGuarded guard addrs
  literal-answer guard ip port addrs (ok canonical) c e =
      subst (IsGuarded guard) (ok-injective e) (literal-IsGuarded guard ip canonical port c)
  literal-answer guard ip port addrs (err f) c e = absurd cc

  lookup-answer :
      (guard : SsrfGuard nets) (host : Text) (port : ℕ) (addrs : List SocketAddr)
      (r : Text ⊎ List IpAddr)
      → (elim r [
        | inl source ↦ err (ProxyError.dns host source)
        | inr lookup ↦ conclude nets host (collect nets guard port lookup ([], none))
      ])
        ≡ ok addrs
      → IsGuarded guard addrs
  unfolding answer conclude
  lookup-answer guard host port addrs (inl source) e = absurd cc
  lookup-answer guard host port addrs (inr lookup) e =
      answer-IsGuarded guard host port lookup addrs
        (ground (arith, collect-candidates guard port lookup ([], none)))

  -- Whatever a lookup answers, and also for a host that is a literal address, every address that
  -- `resolve` returns is admissible, and there is at least one. A connector that dials a literal
  -- address without asking the resolver is not bound by this.
  pub resolve-IsGuarded :
      (parse_ip : Text → Option IpAddr) (lookup_ip : Text → Text ⊎ List IpAddr)
      (guard : SsrfGuard nets) (host : Text) (port : ℕ) (addrs : List SocketAddr)
      → resolve nets parse_ip lookup_ip guard host port ≡ ok addrs
      → (is_empty addrs ≡ false) × All (Admitted guard) addrs
  unfolding resolve IsGuarded
  resolve-IsGuarded parse_ip lookup_ip guard host port addrs e = go (parse_ip host) e
    where
      go :
          (p : Option IpAddr)
          → (elim p [
            | some ip ↦ elim (check_ip nets guard ip) [
              | err e ↦ err e
              | ok canonical ↦ ok (record { ip = canonical; port = port } ∷ [])
            ]
            | none ↦ elim (lookup_ip host) [
              | inl source ↦ err (ProxyError.dns host source)
              | inr lookup ↦ conclude nets host (collect nets guard port lookup ([], none))
            ]
          ])
            ≡ ok addrs
          → (is_empty addrs ≡ false) × All (Admitted guard) addrs
      go (some ip) e = literal-answer guard ip port addrs (check_ip nets guard ip) refl e
      go none e = lookup-answer guard host port addrs (lookup_ip host) e

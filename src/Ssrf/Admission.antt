-- ===== src/Ssrf/Admission.antt =====
-- Which single addresses the guard admits.
use mathlib.Core.Path.{subst}
use corx.Error.{IpAddr, ProxyError, ok, err}
use corx.Prelude.{
  ℕ, ◌+◌, ◌*◌, ◌/◌, ◌%◌, ◌<◌, ◌≡◌, refl, sym, inl, inr, Bool, true, false, ◌&&◌, ◌||◌, not, some,
  List, [], ◌∷◌, Text, if◌then◌else◌, any, arith, Bool-cases, Option-cases, text_eq, text_eq_iff,
  contains,
}
use corx.Ssrf.{
  IpNets, SsrfMode, strict, permissive, SsrfConfig, SsrfGuard, default_blocked_cidrs, canonicalise,
  is_ipv6, compile_cidr_list, new, refuse_in, evaluate_mode, evaluate, check_ip,
}

module _ (nets : IpNets) where
  open nets use {IpNet}

  -- The address is in one of the networks.
  abbrev pub inside : List IpNet → IpAddr → Bool
  inside list ip = any (λ net. nets.contains net ip) list

  -- What a mode admits: all but the blocked networks, everything, or all but the private ones.
  unfoldable pub mode_admits : SsrfGuard nets → SsrfMode → IpAddr → Bool
  mode_admits guard strict ip = not (inside guard.blocked ip)
  mode_admits guard (permissive true) ip = true
  mode_admits guard (permissive false) ip = not (inside guard.private ip)

  -- An address that a connection may be made to, in its canonical form.
  unfoldable pub admissible : SsrfGuard nets → IpAddr → Bool
  admissible guard ip =
      (guard.allow_ipv6 || not (is_ipv6 ip))
      && (inside guard.allowed ip || mode_admits guard guard.mode ip)

  refuse_in-inside :
      (list : List IpNet) (ip : IpAddr)
      → refuse_in nets list ip
        ≡ (if inside list ip then err (ProxyError.ssrf_blocked ip) else ok tt)
  unfolding refuse_in
  refuse_in-inside [] ip = refl
  refuse_in-inside (net ∷ list) ip = ground (arith, refuse_in-inside list ip)

  evaluate_mode-admits :
      (guard : SsrfGuard nets) (mode : SsrfMode) (ip : IpAddr)
      → evaluate_mode nets guard mode ip
        ≡ (if mode_admits guard mode ip then ok tt else err (ProxyError.ssrf_blocked ip))
  unfolding evaluate_mode mode_admits
  evaluate_mode-admits guard strict ip = ground (arith, refuse_in-inside guard.blocked ip)
  evaluate_mode-admits guard (permissive true) ip = refl
  evaluate_mode-admits guard (permissive false) ip =
      ground (arith, refuse_in-inside guard.private ip)

  pub evaluate-admits :
      (guard : SsrfGuard nets) (ip : IpAddr)
      → evaluate nets guard ip ≡ (
          if inside guard.allowed ip || mode_admits guard guard.mode ip
          then ok tt
          else err (ProxyError.ssrf_blocked ip))
  unfolding evaluate
  evaluate-admits guard ip = ground (arith, evaluate_mode-admits guard guard.mode ip)

  -- An address is answered by its canonical form if that is admissible, and by an error that names
  -- the canonical form otherwise. Admissible is an address that is IPv4 or, if the guard allows it,
  -- IPv6, and in an allowed network or not in one that the mode refuses.
  pub check_ip-admissible :
      (guard : SsrfGuard nets) (raw : IpAddr)
      → check_ip nets guard raw ≡ (
          if admissible guard (canonicalise raw)
          then ok (canonicalise raw)
          else err (ProxyError.ssrf_blocked (canonicalise raw)))
  unfolding check_ip admissible
  check_ip-admissible guard raw = ground (arith, evaluate-admits guard (canonicalise raw))

  canonicalise_mapped :
      (a : ℕ) → a < 4294967296 → canonicalise (IpAddr.v6 (65535 * 4294967296 + a)) ≡ IpAddr.v4 a
  unfolding canonicalise
  canonicalise_mapped a h =
      let top : (65535 * 4294967296 + a) / 4294967296 ≡ 65535 = omega arith in
      let low : (65535 * 4294967296 + a) % 4294967296 ≡ a = omega arith in rw (top, low)

  canonicalise_v4 : (a : ℕ) → canonicalise (IpAddr.v4 a) ≡ IpAddr.v4 a
  unfolding canonicalise
  canonicalise_v4 a = refl

  -- The guard treats an IPv4 address that is mapped into IPv6 as the IPv4 address itself.
  pub check_ip_mapped :
      (guard : SsrfGuard nets) (a : ℕ)
      → a < 4294967296
      → check_ip nets guard (IpAddr.v6 (65535 * 4294967296 + a)) ≡ check_ip nets guard (IpAddr.v4 a)
  check_ip_mapped guard a h = rw (
    check_ip-admissible guard (IpAddr.v6 (65535 * 4294967296 + a)),
    check_ip-admissible guard (IpAddr.v4 a),
    canonicalise_mapped a h,
    canonicalise_v4 a,
  )

  inside-compile :
      (builtin : List Text) (extras : List IpNet) (raw : Text) (net : IpNet) (ip : IpAddr)
      → contains builtin raw ≡ true
      → nets.parse raw ≡ some net
      → nets.contains net ip ≡ true
      → inside (compile_cidr_list nets builtin extras) ip ≡ true
  unfolding compile_cidr_list contains
  inside-compile [] extras raw net ip h e c = cc
  inside-compile (r ∷ builtin) extras raw net ip h e c = elim (Bool-cases (text_eq r raw)) [
    | inl same ↦
        let parsed : nets.parse r ≡ some net =
          subst (λ t. nets.parse t ≡ some net) (sym ((text_eq_iff r raw).0 same)) e in
        ground arith
    | inr other ↦ elim (Option-cases (nets.parse r)) [
      | inl f ↦ ground (arith, inside-compile builtin extras raw net ip)
      | inr (n, f) ↦ ground (arith, inside-compile builtin extras raw net ip)
    ]
  ]

  mode_admits-strict :
      (guard : SsrfGuard nets) (mode : SsrfMode) (ip : IpAddr)
      → mode ≡ strict
      → mode_admits guard mode ip ≡ not (inside guard.blocked ip)
  unfolding mode_admits
  mode_admits-strict guard strict ip m = refl
  mode_admits-strict guard (permissive b) ip m = absurd cc

  builtin-inadmissible :
      (cfg : SsrfConfig nets) (ip : IpAddr)
      → cfg.mode ≡ strict
      → inside (compile_cidr_list nets default_blocked_cidrs cfg.extra_blocked_cidrs) ip ≡ true
      → inside cfg.extra_allowed_cidrs ip ≡ false
      → admissible (new nets cfg) ip ≡ false
  unfolding new admissible compile_cidr_list
  builtin-inadmissible cfg ip m b a =
      ground (arith, mode_admits-strict (new nets cfg) cfg.mode ip m)

  -- Under a strict configuration every address whose canonical form is in a network of the built-in
  -- list is refused, unless the operator allowed a network that it is in.
  pub strict-refuses-builtin :
      (cfg : SsrfConfig nets) (raw : IpAddr) (cidr : Text) (net : IpNet)
      → cfg.mode ≡ strict
      → contains default_blocked_cidrs cidr ≡ true
      → nets.parse cidr ≡ some net
      → nets.contains net (canonicalise raw) ≡ true
      → inside cfg.extra_allowed_cidrs (canonicalise raw) ≡ false
      → check_ip nets (new nets cfg) raw ≡ err (ProxyError.ssrf_blocked (canonicalise raw))
  strict-refuses-builtin cfg raw cidr net m h e c a = rw (
    check_ip-admissible (new nets cfg) raw,
    builtin-inadmissible cfg (canonicalise raw) m
        (inside-compile default_blocked_cidrs cfg.extra_blocked_cidrs cidr net (canonicalise raw) h
          e c)
        a,
  )

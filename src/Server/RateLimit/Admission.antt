-- ===== src/Server/RateLimit/Admission.antt =====
-- Which requests the rate limiter lets through, and which dimensions a refused request has charged.
use corx.Error.{IpAddr, Result, ok}
use corx.Keys.{Keys, count}
use corx.Prelude.{
  ℕ, ◌+◌, ◌≡◌, refl, Bool, true, false, ◌&&◌, ◌||◌, inl, inr, Option, none, some, Text, ltb, length,
  arith, if◌then◌else◌, Bool-cases, List, [], ◌∷◌,
}
use corx.Server.RateLimit.{
  Governor, Regexes, RateContext, Counted, reject, admit_key, charge, admit_and_check, ◌then◌,
  OriginDimension, IpDimension, RateLimiter, is_trusted, limit_origin, limit_ip, limit_host,
  limit_global, check_dimensions, check,
}
use corx.Ssrf.{IpNets}

-- A verdict of the limiter.
unfoldable pub answer : Bool → Result (Unit {0})
answer true = ok tt
answer false = reject

module _ {K : Type 0} (keys : Keys K) where
  open keys use {Set, contains_key, len, insert}

  -- There is room for a key: it is known already, or the set is not full.
  unfoldable pub has_room : Set → K → ℕ → Bool
  has_room known key max_keys = contains_key known key || ltb (len known) max_keys

  count-true : (ks : List K) → count (λ j. true) ks ≡ length ks
  count-true [] = refl
  count-true (k ∷ ks) = ground (arith, count-true ks)

  len-insert :
      (known : Set) (key : K)
      → contains_key known key ≡ false
      → len (insert known key) ≡ len known + 1
  len-insert known key e = grind (
    arith,
    keys.len-keys known,
    keys.len-keys (insert known key),
    count-true (keys.keys known),
    count-true (keys.keys (insert known key)),
    keys.count-insert known key (λ j. true),
  )

  -- Without other tasks the test after the insertion never fails.
  pub admit_key-answer :
      (known : Set) (key : K) (max_keys : ℕ)
      → (admit_key keys known key max_keys).0 ≡ answer (has_room known key max_keys)
  unfolding admit_key has_room answer
  admit_key-answer known key max_keys = elim (Bool-cases (contains_key known key)) [
    | inl e ↦ ground arith
    | inr e ↦ ground (arith, len-insert known key e)
  ]

module _ {K : Type 0} (keys : Keys K) (governor : Governor) where
  open governor use {check_key}

  unfoldable pub counted_admits : Counted keys governor → K → ℕ → ℕ → Bool
  counted_admits counted key max_keys now =
      has_room keys counted.known key max_keys && (check_key counted.limiter key now).0

  pub admit_and_check-answer :
      (counted : Counted keys governor) (key : K) (max_keys now : ℕ)
      → (admit_and_check keys governor counted key max_keys now).0
        ≡ answer (counted_admits counted key max_keys now)
  unfolding admit_and_check counted_admits answer charge
  admit_and_check-answer counted key max_keys now =
      ground (arith, admit_key-answer keys counted.known key max_keys)

module _ (texts : Keys Text) (ips : Keys IpAddr) (governor : Governor) (regexes : Regexes)
    (nets : IpNets) where
  -- A request passes the dimension of origins: there is none, it has no origin, its origin matches a
  -- pattern without limit, or the limiter admits its origin.
  unfoldable pub origin_admits :
      ℕ → ℕ → Option Text → Option (OriginDimension texts ips governor regexes nets) → Bool
  origin_admits max_keys now origin none = true
  origin_admits max_keys now none (some dim) = true
  origin_admits max_keys now (some origin) (some dim) =
      regexes.is_match dim.unlimited origin
      || counted_admits texts governor dim.counted origin max_keys now

  unfoldable pub ip_admits :
      ℕ → ℕ → IpAddr → Option (IpDimension texts ips governor regexes nets) → Bool
  ip_admits max_keys now ip none = true
  ip_admits max_keys now ip (some dim) =
      is_trusted texts ips governor regexes nets dim.trusted ip
      || counted_admits ips governor dim.counted ip max_keys now

  unfoldable pub host_admits : ℕ → ℕ → Option Text → Option (Counted texts governor) → Bool
  host_admits max_keys now host none = true
  host_admits max_keys now none (some dim) = true
  host_admits max_keys now (some host) (some dim) =
      counted_admits texts governor dim host max_keys now

  unfoldable pub global_admits : ℕ → Option governor.Direct → Bool
  global_admits now none = true
  global_admits now (some global) = (governor.check global now).0

  limit_origin-answer :
      (max_keys now : ℕ) (origin : Option Text)
      (dim : Option (OriginDimension texts ips governor regexes nets))
      → (limit_origin texts ips governor regexes nets max_keys now origin dim).0
        ≡ answer (origin_admits max_keys now origin dim)
  unfolding limit_origin origin_admits answer
  limit_origin-answer max_keys now origin none = refl
  limit_origin-answer max_keys now none (some dim) = refl
  limit_origin-answer max_keys now (some origin) (some dim) =
      ground (arith, admit_and_check-answer texts governor dim.counted origin max_keys now)

  limit_ip-answer :
      (max_keys now : ℕ) (ip : IpAddr) (dim : Option (IpDimension texts ips governor regexes nets))
      → (limit_ip texts ips governor regexes nets max_keys now ip dim).0
        ≡ answer (ip_admits max_keys now ip dim)
  unfolding limit_ip ip_admits answer
  limit_ip-answer max_keys now ip none = refl
  limit_ip-answer max_keys now ip (some dim) =
      ground (arith, admit_and_check-answer ips governor dim.counted ip max_keys now)

  limit_host-answer :
      (max_keys now : ℕ) (host : Option Text) (dim : Option (Counted texts governor))
      → (limit_host texts ips governor regexes nets max_keys now host dim).0
        ≡ answer (host_admits max_keys now host dim)
  unfolding limit_host host_admits answer
  limit_host-answer max_keys now host none = refl
  limit_host-answer max_keys now none (some dim) = refl
  limit_host-answer max_keys now (some host) (some dim) =
      admit_and_check-answer texts governor dim host max_keys now

  limit_global-answer :
      (now : ℕ) (global : Option governor.Direct)
      → (limit_global texts ips governor regexes nets now global).0
        ≡ answer (global_admits now global)
  unfolding limit_global global_admits answer
  limit_global-answer now none = refl
  limit_global-answer now (some global) = ground arith

  -- the limiter after a request, dimension by dimension: one is charged only if those before it
  -- admitted the request
  unfoldable pub charged :
      RateContext
      → ℕ
      → RateLimiter texts ips governor regexes nets
      → RateLimiter texts ips governor regexes nets
  charged ctx now limiter =
      let by_origin = origin_admits limiter.max_keys now ctx.origin limiter.origin in
      let by_ip = by_origin && ip_admits limiter.max_keys now ctx.client_ip limiter.ip in
      let by_host = by_ip && host_admits limiter.max_keys now ctx.target_host limiter.host in
      record limiter {
        origin =
            (limit_origin texts ips governor regexes nets limiter.max_keys now ctx.origin
              limiter.origin).1;
        ip =
            if by_origin
            then (limit_ip texts ips governor regexes nets limiter.max_keys now ctx.client_ip
                limiter.ip).1
            else limiter.ip;
        host =
            if by_ip
            then (limit_host texts ips governor regexes nets limiter.max_keys now ctx.target_host
                limiter.host).1
            else limiter.host;
        global =
            if by_host
            then (limit_global texts ips governor regexes nets now limiter.global).1
            else limiter.global;
      }

  unfoldable pub all_admit : RateContext → ℕ → RateLimiter texts ips governor regexes nets → Bool
  all_admit ctx now limiter =
      origin_admits limiter.max_keys now ctx.origin limiter.origin
      && ip_admits limiter.max_keys now ctx.client_ip limiter.ip
      && host_admits limiter.max_keys now ctx.target_host limiter.host
      && global_admits now limiter.global

  -- A limiter that is enabled lets a request through exactly when each of its four dimensions admits
  -- it, and a refusal has the kind of a rate limit. A dimension is charged only if those before it,
  -- in the order origin, address, host and process, have admitted the request.
  pub check-answer :
      (ctx : RateContext) (now : ℕ) (limiter : RateLimiter texts ips governor regexes nets)
      → limiter.enabled ≡ true
      → check texts ips governor regexes nets ctx now limiter
        ≡ (answer (all_admit ctx now limiter), charged ctx now limiter)
  unfolding check check_dimensions all_admit charged ◌then◌ answer
  check-answer ctx now limiter on = ground (
    arith,
    limit_origin-answer limiter.max_keys now ctx.origin limiter.origin,
    limit_ip-answer limiter.max_keys now ctx.client_ip limiter.ip,
    limit_host-answer limiter.max_keys now ctx.target_host limiter.host,
    limit_global-answer now limiter.global,
  )

-- ===== src/Server/RateLimit.antt =====
-- crates/corx-server/src/middleware/rate_limit.rs: the rate limiter by origin, address, target host
-- and for the whole process. The crates governor, regex and ipnet and the sets of keys are
-- parameters; what the limiter shares with other tasks is passed along. Counters of metrics are left
-- out, so the name of a dimension is not passed.
pub mod Admission
pub mod Build
pub mod Concurrent
pub mod Accepted
pub mod Known
mod Tests
use Prim.Native.Nat.{max}
use corx.Config.RateLimit.{
  OriginLimitConfig, IpLimitConfig, HostLimitConfig, GlobalLimitConfig, RateLimitConfig,
}
use corx.Error.{IpAddr, ProxyError, Result, ok, err}
use corx.Keys.{Keys}
use corx.Prelude.{
  ℕ, Bool, true, false, ◌++◌, codes, not, ◌⊎◌, inl, inr, Option, none, some, List, String, Text,
  ltb, leb, ◌==◌, any, if◌then◌else◌,
}
use corx.Ssrf.{IpNets}

-- The crate governor: limiters with a state for each key, and with one state. A check reads the
-- clock, and answers whether the request conforms; the state of the limiter is passed along.
pub record Governor : Type 1 where
  pub Quota : Type 0
  -- `Quota::per_second` takes a number that is not 0, as `allow_burst` does
  pub per_second : ℕ → Quota
  pub allow_burst : Quota → ℕ → Quota
  pub Keyed : Type 0 → Type 0
  pub dashmap_with_clock : {K : Type 0} → Quota → Keyed K
  pub check_key : {K : Type 0} → Keyed K → K → ℕ → Bool × Keyed K
  pub Direct : Type 0
  pub direct_with_clock : Quota → Direct
  pub check : Direct → ℕ → Bool × Direct

-- The crate regex: a set of patterns, or the text of the error.
pub record Regexes : Type 1 where
  pub RegexSet : Type 0
  pub new : List String → Text ⊎ RegexSet
  pub is_match : RegexSet → Text → Bool

-- `RateContext`
pub record RateContext : Type 0 where
  pub origin : Option Text
  pub client_ip : IpAddr
  pub target_host : Option Text

-- `reject`
abbrev pub reject : Result (Unit {0})
reject = err ProxyError.rate_limited

-- A step that changes a state, and the operator `?` between two of them.
infixl 5 ◌then◌
unfoldable pub ◌then◌ :
    {S : Type 0} → Result (Unit {0}) × S → (S → Result (Unit {0}) × S) → Result (Unit {0}) × S
(err e, s) then rest = (err e, s)
(ok _, s) then rest = rest s

module _ {K : Type 0} (keys : Keys K) where
  open keys use {Set, contains_key, len, insert, remove}

  unfoldable pub admit_key : Set → K → ℕ → Result (Unit {0}) × Set
  admit_key known key max_keys =
      if contains_key known key
      then (ok tt, known)
      else if leb max_keys (len known)
      then (reject, known)
      else (let known' = insert known key in
          if ltb max_keys (len known') then (reject, remove known' key) else (ok tt, known'))

module _ {K : Type 0} (keys : Keys K) (governor : Governor) where
  open keys use {Set}
  open governor use {Keyed, check_key}

  -- `limiter` and `keys` of a dimension
  pub record Counted : Type 0 where
    pub limiter : Keyed K
    pub known : Set

  -- the limiter's answer, once the key is admitted
  unfoldable pub charge : Keyed K → Set → K → ℕ → Result (Unit {0}) × Counted
  charge limiter known key now =
      let (conforms, limiter') = check_key limiter key now in
      (if conforms then ok tt else reject, record { limiter = limiter'; known = known })

  -- `admit_and_check`, and `admit_and_check_str` for texts
  unfoldable pub admit_and_check : Counted → K → ℕ → ℕ → Result (Unit {0}) × Counted
  admit_and_check counted key max_keys now =
      let (verdict, known) = admit_key keys counted.known key max_keys in
      elim verdict [
        | err e ↦ (err e, record { limiter = counted.limiter; known = known })
        | ok _ ↦ charge counted.limiter known key now
      ]

module _ (texts : Keys Text) (ips : Keys IpAddr) (governor : Governor) (regexes : Regexes)
    (nets : IpNets) where
  open governor use {Direct}
  open regexes use {RegexSet, is_match}
  open nets use {IpNet, contains}

  -- `OriginDimension`
  pub record OriginDimension : Type 0 where
    pub counted : Counted texts governor
    pub unlimited : RegexSet

  -- `IpDimension`
  pub record IpDimension : Type 0 where
    pub counted : Counted ips governor
    pub trusted : List IpNet

  -- `Inner`; a `HostDimension` has a limiter and keys alone
  pub record RateLimiter : Type 0 where
    pub enabled : Bool
    pub max_keys : ℕ
    pub origin : Option OriginDimension
    pub ip : Option IpDimension
    pub host : Option (Counted texts governor)
    pub global : Option Direct

  unfoldable pub is_trusted : List IpNet → IpAddr → Bool
  is_trusted trusted ip = any (λ net. contains net ip) trusted

  -- The four parts of `check`. Each gives back the dimension, which the check may have charged.
  unfoldable pub limit_origin :
      ℕ → ℕ → Option Text → Option OriginDimension → Result (Unit {0}) × Option OriginDimension
  limit_origin max_keys now origin none = (ok tt, none)
  limit_origin max_keys now none (some dim) = (ok tt, some dim)
  limit_origin max_keys now (some origin) (some dim) =
      if not (is_match dim.unlimited origin)
      then (let (verdict, counted') =
            admit_and_check texts governor dim.counted origin max_keys now in
          (verdict, some (record dim { counted = counted' })))
      else (ok tt, some dim)

  unfoldable pub limit_ip :
      ℕ → ℕ → IpAddr → Option IpDimension → Result (Unit {0}) × Option IpDimension
  limit_ip max_keys now client_ip none = (ok tt, none)
  limit_ip max_keys now client_ip (some dim) =
      if not (is_trusted dim.trusted client_ip)
      then (let (verdict, counted') =
            admit_and_check ips governor dim.counted client_ip max_keys now in
          (verdict, some (record dim { counted = counted' })))
      else (ok tt, some dim)

  unfoldable pub limit_host :
      ℕ
      → ℕ
      → Option Text
      → Option (Counted texts governor)
      → Result (Unit {0}) × Option (Counted texts governor)
  limit_host max_keys now host none = (ok tt, none)
  limit_host max_keys now none (some dim) = (ok tt, some dim)
  limit_host max_keys now (some host) (some dim) =
      let (verdict, dim') = admit_and_check texts governor dim host max_keys now in
      (verdict, some dim')

  unfoldable pub limit_global : ℕ → Option Direct → Result (Unit {0}) × Option Direct
  limit_global now none = (ok tt, none)
  limit_global now (some global) =
      let (conforms, global') = governor.check global now in
      (if conforms then ok tt else reject, some global')

  -- the four dimensions, in the order of `check`
  unfoldable pub check_dimensions : RateContext → ℕ → RateLimiter → Result (Unit {0}) × RateLimiter
  check_dimensions ctx now limiter =
      let (verdict, origin') = limit_origin limiter.max_keys now ctx.origin limiter.origin in
      (verdict, record limiter { origin = origin' })
      then (λ l.
          let (verdict, ip') = limit_ip l.max_keys now ctx.client_ip l.ip in
          (verdict, record l { ip = ip' }))
      then (λ l.
          let (verdict, host') = limit_host l.max_keys now ctx.target_host l.host in
          (verdict, record l { host = host' }))
      then (λ l.
          let (verdict, global') = limit_global now l.global in
          (verdict, record l { global = global' }))

  -- `RateLimiter::check`
  unfoldable pub check : RateContext → ℕ → RateLimiter → Result (Unit {0}) × RateLimiter
  check ctx now limiter =
      if not limiter.enabled then (ok tt, limiter) else check_dimensions ctx now limiter

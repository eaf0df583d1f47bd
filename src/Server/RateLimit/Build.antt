-- ===== src/Server/RateLimit/Build.antt =====
-- crates/corx-server/src/middleware/rate_limit.rs: the construction of the limiter.
use Prim.Native.Nat.{max}
use corx.Config.RateLimit.{
  OriginLimitConfig, IpLimitConfig, HostLimitConfig, GlobalLimitConfig, RateLimitConfig,
}
use corx.Error.{IpAddr}
use corx.Keys.{Keys}
use corx.Prelude.{
  ℕ, true, false, ◌++◌, codes, not, ◌⊎◌, inl, inr, Option, none, some, List, String, Text, ◌==◌,
  if◌then◌else◌,
}
use corx.Server.RateLimit.{Governor, Regexes, Counted, OriginDimension, IpDimension, RateLimiter}
use corx.Ssrf.{IpNets}

module _ (texts : Keys Text) (ips : Keys IpAddr) (governor : Governor) (regexes : Regexes)
    (nets : IpNets) where
  open governor use {Quota, Direct, per_second, allow_burst, dashmap_with_clock, direct_with_clock}
  open regexes use {RegexSet}

  infixl 5 ◌>>=◌
  abbrev ◌>>=◌ : {A B : Type 0} → Text ⊎ A → (A → Text ⊎ B) → Text ⊎ B
  inl message >>= rest = inl message
  inr value >>= rest = rest value

  unfoldable pub regex_set : List String → Text ⊎ RegexSet
  regex_set patterns = elim (regexes.new patterns) [
    | inl message ↦ inl (codes "invalid origin.unlimited_patterns regex: " ++ message)
    | inr set ↦ inr set
  ]

  -- The construction. An error of `anyhow` is the text that it displays.
  unfoldable pub quota : ℕ → ℕ → Text ⊎ Quota
  quota rps burst =
      if rps == 0
      then inl (codes "rps must be > 0")
      else (let burst' = max burst rps in
          if burst' == 0
          then inl (codes "burst must be > 0")
          else inr (allow_burst (per_second rps) burst'))

  abbrev fresh : {K : Type 0} (keys : Keys K) → Quota → Counted keys governor
  fresh keys q = record { limiter = dashmap_with_clock q; known = keys.empty }

  unfoldable pub build_origin :
      OriginLimitConfig → Text ⊎ Option (OriginDimension texts ips governor regexes nets)
  build_origin cfg = if cfg.rps == 0 then inr none else (do
    q ← quota cfg.rps cfg.burst
    unlimited ← regex_set cfg.unlimited_patterns
    inr (some (record { counted = fresh texts q; unlimited = unlimited })))

  unfoldable pub build_ip :
      IpLimitConfig nets → Text ⊎ Option (IpDimension texts ips governor regexes nets)
  build_ip cfg = if cfg.rps == 0 then inr none else (do
    q ← quota cfg.rps cfg.burst
    inr (some (record { counted = fresh ips q; trusted = cfg.trusted_cidrs })))

  unfoldable pub build_host : HostLimitConfig → Text ⊎ Option (Counted texts governor)
  build_host cfg =
      if cfg.rps == 0
      then inr none
      else (do q ← quota cfg.rps cfg.burst; inr (some (fresh texts q)))

  unfoldable pub build_global : GlobalLimitConfig → Text ⊎ Option Direct
  build_global cfg =
      if cfg.rps == 0
      then inr none
      else (do q ← quota cfg.rps cfg.burst; inr (some (direct_with_clock q)))

  unfoldable pub from_config :
      RateLimitConfig nets → Text ⊎ RateLimiter texts ips governor regexes nets
  from_config cfg =
      if not cfg.enabled
      then inr (record {
        enabled = false;
        max_keys = max cfg.max_keys 1;
        origin = none;
        ip = none;
        host = none;
        global = none;
      })
      else (do
        origin ← build_origin cfg.origin
        ip ← build_ip cfg.ip
        host ← build_host cfg.target_host
        global ← build_global cfg.global
        inr (record {
          enabled = true;
          max_keys = max cfg.max_keys 1;
          origin = origin;
          ip = ip;
          host = host;
          global = global;
        }))

-- ===== src/Server/RateLimit/Accepted.antt =====
-- The limiter that an accepted configuration builds.
use Prim.Native.Nat.{max}
use corx.Config.RateLimit.{
  RateLimitConfig, OriginLimitConfig, IpLimitConfig, HostLimitConfig, GlobalLimitConfig,
}
use corx.Config.Tree.{Config}
use corx.Config.Validate.{validate}
use corx.Config.Validate.Accepted.{validate-IsAcceptable_iff}
use corx.Cors.{is_some}
use corx.Error.{IpAddr}
use corx.Keys.{Keys}
use corx.Prelude.{
  ℕ, ◌≡◌, refl, Bool, true, false, ◌||◌, inl, inr, Option, none, some, String, Text, ltb, ◌==◌,
  arith, if◌then◌else◌, Bool-cases,
}
use corx.Server.RateLimit.{Governor, Regexes, RateLimiter, Counted}
use corx.Server.RateLimit.Build.{
  quota, regex_set, build_origin, build_ip, build_host, build_global, from_config,
}
use corx.Ssrf.{IpNets}

module _ (texts : Keys Text) (ips : Keys IpAddr) (governor : Governor) (regexes : Regexes)
    (nets : IpNets) where
  -- a dimension where `rps` is not 0, and none otherwise
  abbrev when {ℓ} : {A : Type ℓ} → ℕ → A → Option A
  when rps dim = if ltb 0 rps then some dim else none

  abbrev sized : ℕ → ℕ → governor.Quota
  sized rps burst = governor.allow_burst (governor.per_second rps) (max burst rps)

  abbrev unused : {K : Type 0} (keys : Keys K) → governor.Quota → Counted keys governor
  unused keys q = record { limiter = governor.dashmap_with_clock q; known = keys.empty }

  -- The limiter of a configuration whose patterns compile to a set.
  unfoldable pub built :
      RateLimitConfig nets → regexes.RegexSet → RateLimiter texts ips governor regexes nets
  built cfg set =
      let on = λ (rps : ℕ). if cfg.enabled then rps else 0 in
      record {
        enabled = cfg.enabled;
        max_keys = max cfg.max_keys 1;
        origin = when (on cfg.origin.rps) (record {
          counted = unused texts (sized cfg.origin.rps cfg.origin.burst);
          unlimited = set;
        });
        ip = when (on cfg.ip.rps) (record {
          counted = unused ips (sized cfg.ip.rps cfg.ip.burst);
          trusted = cfg.ip.trusted_cidrs;
        });
        host =
            when (on cfg.target_host.rps)
              (unused texts (sized cfg.target_host.rps cfg.target_host.burst));
        global =
            when (on cfg.global.rps)
              (governor.direct_with_clock (sized cfg.global.rps cfg.global.burst));
      }

  quota-sized :
      (rps burst : ℕ)
      → (rps == 0) ≡ false
      → quota texts ips governor regexes nets rps burst ≡ inr (sized rps burst)
  unfolding quota
  quota-sized rps burst h = ground arith

  build_host-when :
      (cfg : HostLimitConfig)
      → build_host texts ips governor regexes nets cfg
        ≡ inr (when cfg.rps (unused texts (sized cfg.rps cfg.burst)))
  unfolding build_host
  build_host-when cfg = ground (arith, quota-sized cfg.rps cfg.burst)

  build_global-when :
      (cfg : GlobalLimitConfig)
      → build_global texts ips governor regexes nets cfg
        ≡ inr (when cfg.rps (governor.direct_with_clock (sized cfg.rps cfg.burst)))
  unfolding build_global
  build_global-when cfg = ground (arith, quota-sized cfg.rps cfg.burst)

  build_ip-when :
      (cfg : IpLimitConfig nets)
      → build_ip texts ips governor regexes nets cfg
        ≡ inr (
            when cfg.rps (record {
              counted = unused ips (sized cfg.rps cfg.burst);
              trusted = cfg.trusted_cidrs;
            }))
  unfolding build_ip
  build_ip-when cfg = ground (arith, quota-sized cfg.rps cfg.burst)

  build_origin-when :
      (cfg : OriginLimitConfig) (set : regexes.RegexSet)
      → regexes.new cfg.unlimited_patterns ≡ inr set
      → build_origin texts ips governor regexes nets cfg
        ≡ inr (
            when cfg.rps
              (record { counted = unused texts (sized cfg.rps cfg.burst); unlimited = set }))
  unfolding build_origin regex_set
  build_origin-when cfg set h = ground (arith, quota-sized cfg.rps cfg.burst)

  from_config-built :
      (cfg : RateLimitConfig nets) (set : regexes.RegexSet)
      → regexes.new cfg.origin.unlimited_patterns ≡ inr set
      → from_config texts ips governor regexes nets cfg ≡ inr (built cfg set)
  unfolding from_config built
  from_config-built cfg set h = elim (Bool-cases cfg.enabled) [
    | inl e ↦
        rw
          (
            e,
            build_origin-when cfg.origin set h,
            build_ip-when cfg.ip,
            build_host-when cfg.target_host,
            build_global-when cfg.global,
          )
          refl
    | inr e ↦ rw e refl
  ]

  -- the dimensions of a limiter
  unfoldable pub limits_something : RateLimiter texts ips governor regexes nets → Bool
  limits_something limiter =
      is_some limiter.origin || is_some limiter.ip || is_some limiter.host || is_some limiter.global

  -- From an accepted configuration with rate limiting, if its patterns compile, a limiter is built:
  -- it is switched on, bounds its keys by the configured number, and has at least one dimension.
  pub accepted-limits :
      (is_file : String → Bool) (cfg : Config nets) (set : regexes.RegexSet)
      → validate nets is_file cfg ≡ inr tt
      → cfg.rate_limit.enabled ≡ true
      → regexes.new cfg.rate_limit.origin.unlimited_patterns ≡ inr set
      → (limiter : RateLimiter texts ips governor regexes nets) × ((from_config texts ips governor
              regexes nets cfg.rate_limit
            ≡ inr limiter)
          × ((limiter.enabled ≡ true)
              × ((limiter.max_keys ≡ cfg.rate_limit.max_keys) × (limits_something limiter ≡ true))))
  unfolding built limits_something
  accepted-limits is_file cfg set accepted on compiled =
      let safe = ((validate-IsAcceptable_iff nets is_file cfg).0 accepted).rate_limit on in
      (
        built cfg.rate_limit set,
        (
          from_config-built cfg.rate_limit set compiled,
          (on, (omega (arith, safe.0.0), let reason = safe.0.1 in rw on (ground arith))),
        ),
      )

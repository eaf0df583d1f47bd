-- ===== src/Server/State/Fits.antt =====
-- What it means that the policies fit a configuration, and that each part of `build_from` does so.
use corx.Circuit.{CircuitBreakerConfig, CircuitBreaker, from_config}
use corx.Config.Equality.{
  ssrf_equal, target_equal, upstream_equal, circuit_equal, rate_limit_equal, redirect_equal,
}
use corx.Config.RateLimit.{RateLimitConfig}
use corx.Config.Tree.{Config}
use corx.Cors.{from_config as cors_from_config}
use corx.Equality.{nat_equal, bool_equal}
use corx.Headers.{try_new}
use corx.Prelude.{
  ℕ, ◌≡◌, refl, sym, true, ◌⊎◌, inl, inr, Option, none, some, arith, Bool-cases, Option-cases,
}
use corx.Server.Crates.{Crates}
use corx.Server.RateLimit.{RateLimiter, RateContext, check}
use corx.Server.RateLimit.Build.{from_config as limiter_from_config}
use corx.Server.State.{
  origin_from_config, Client, LivePolicies, client_config, upstream_config_eq, rate_limiter_of,
  circuit_of, new_client, client_of,
}
use corx.Ssrf.{new}
use corx.Target.{from_config as target_from_config}

pub inr-injective : {A B : Type 0} {a b : B} → ◌≡◌ {A = A ⊎ B} (inr a) (inr b) → a ≡ b
inr-injective e = cc

module _ (crates : Crates) where
  open crates use {http, uris, hosts, texts, ips, governor, regexes, nets}

  abbrev pub Limiter : Type 0
  Limiter = RateLimiter texts ips governor regexes nets

  -- What the checks of requests make of a limiter. They are the only steps that change it.
  pub data Spent (fresh : Limiter) : Limiter → Type 0 where
    unspent : Spent fresh fresh
    spends :
        (limiter : Limiter) (ctx : RateContext) (now : ℕ)
        → Spent fresh limiter
        → Spent fresh (check texts ips governor regexes nets ctx now limiter).1

  -- The limiter is the one that its configuration builds, with all its quotas, after some checks.
  abbrev pub LimiterFits : RateLimitConfig nets → Limiter → Type 0
  LimiterFits cfg limiter =
      (fresh : Limiter) × ((limiter_from_config texts ips governor regexes nets cfg ≡ inr fresh)
        × Spent fresh limiter)

  -- The breaker has the settings of its configuration, whatever its hosts went through.
  abbrev pub BreakerFits : CircuitBreakerConfig → CircuitBreaker hosts → Type 0
  BreakerFits cfg circuit = record circuit { hosts = hosts.empty } ≡ from_config hosts cfg

  abbrev pub ClientFits : Config nets → Client crates → Type 0
  ClientFits config client =
      (client.upstream.config ≡ client_config crates config)
      × ((client.upstream.target_policy ≡ target_from_config config.target)
          × (client.ssrf ≡ new nets config.ssrf))

  -- Every policy is the one of the configuration.
  pub record IsCurrent (policies : LivePolicies crates) : Type 0 where
    pub cors : policies.cors ≡ cors_from_config http policies.config.cors
    pub request_filter :
        try_new http policies.config.security.remove_request_headers ≡ some policies.request_filter
    pub response_filter :
        try_new http policies.config.security.remove_response_headers
        ≡ some policies.response_filter
    pub origin : policies.origin ≡ origin_from_config crates policies.config.security
    pub target_policy : policies.target_policy ≡ target_from_config policies.config.target
    pub rate_limiter : LimiterFits policies.config.rate_limit policies.rate_limiter
    pub circuit : BreakerFits policies.config.circuit_breaker policies.circuit
    pub client : ClientFits policies.config policies.client

  abbrev pub AreCurrent : Option (LivePolicies crates) → Type 0
  AreCurrent none = Unit
  AreCurrent (some policies) = IsCurrent policies

  pub rate_limiter_of-fits :
      (config : Config nets) (previous : Option (LivePolicies crates)) (limiter : Limiter)
      → AreCurrent previous
      → rate_limiter_of crates config previous ≡ inr limiter
      → LimiterFits config.rate_limit limiter
  unfolding rate_limiter_of
  rate_limiter_of-fits config none limiter c h = (limiter, (h, unspent))
  rate_limiter_of-fits config (some prev) limiter c h =
      let same = rate_limit_equal nets crates.net_equal in
      elim (Bool-cases (same.eq prev.config.rate_limit config.rate_limit)) [
        | inl e ↦
            let kept = inr-injective (rw (rate_limiter_of, e) at h) in
            let section = (same.eq_iff prev.config.rate_limit config.rate_limit).0 e in
            rw (sym kept, sym section) c.rate_limiter
        | inr e ↦ (limiter, (rw (rate_limiter_of, e) at h, unspent))
      ]

  pub circuit_of-fits :
      (config : Config nets) (previous : Option (LivePolicies crates))
      → AreCurrent previous
      → BreakerFits config.circuit_breaker (circuit_of crates config previous)
  unfolding circuit_of from_config
  circuit_of-fits config none c = refl
  circuit_of-fits config (some prev) c =
      elim (Bool-cases (circuit_equal.eq prev.config.circuit_breaker config.circuit_breaker)) [
        | inl e ↦
            let section =
              (circuit_equal.eq_iff prev.config.circuit_breaker config.circuit_breaker).0 e in
            rw (circuit_of, e, sym section) c.circuit
        | inr e ↦ rw (circuit_of, e) refl
      ]

  new_client-fits :
      (config : Config nets) (client : Client crates)
      → new_client crates config (target_from_config config.target) ≡ inr client
      → ClientFits config client
  unfolding new_client
  new_client-fits config client h =
      elim (Option-cases (crates.build_client (client_config crates config))) [
        | inl e ↦
            let built = inr-injective (rw (new_client, e) at h) in
            rw (sym built) (refl, (refl, refl))
        | inr (message, e) ↦ ground (arith, h, e)
      ]

  -- Configurations that agree in what the client is built from.
  same-client :
      (a b : Config nets)
      → upstream_config_eq crates a b ≡ true
      → (client_config crates a ≡ client_config crates b)
        × ((a.target ≡ b.target) × (a.ssrf ≡ b.ssrf))
  unfolding upstream_config_eq client_config
  same-client a b h =
      let ssrf = ((ssrf_equal nets crates.net_equal).eq_iff a.ssrf b.ssrf).0 (ground (arith, h)) in
      let target = (target_equal.eq_iff a.target b.target).0 (ground (arith, h)) in
      let upstream = (upstream_equal.eq_iff a.upstream b.upstream).0 (ground (arith, h)) in
      let connect =
        (nat_equal.eq_iff a.limits.connect_timeout b.limits.connect_timeout).0
          (ground (arith, h)) in
      let redirects =
        (nat_equal.eq_iff a.limits.max_redirects b.limits.max_redirects).0 (ground (arith, h)) in
      let downgrade =
        (bool_equal.eq_iff a.limits.allow_https_to_http_downgrade
            b.limits.allow_https_to_http_downgrade).0
          (ground (arith, h)) in
      let policy =
        (redirect_equal.eq_iff a.limits.redirect_policy b.limits.redirect_policy).0
          (ground (arith, h)) in
      (rw (upstream, connect, redirects, downgrade, policy) refl, (target, ssrf))

  pub client_of-fits :
      (config : Config nets) (previous : Option (LivePolicies crates)) (client : Client crates)
      → AreCurrent previous
      → client_of crates config (target_from_config config.target) previous ≡ inr client
      → ClientFits config client
  unfolding client_of
  client_of-fits config none client c h = new_client-fits config client h
  client_of-fits config (some prev) client c h =
      elim (Bool-cases (upstream_config_eq crates prev.config config)) [
        | inl e ↦
            let kept = inr-injective (rw (client_of, e) at h) in
            let (settings, (target, ssrf)) = same-client prev.config config e in
            rw (sym kept, sym settings, sym target, sym ssrf) c.client
        | inr e ↦ new_client-fits config client (rw (client_of, e) at h)
      ]

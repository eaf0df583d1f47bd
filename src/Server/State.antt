-- ===== src/Server/State.antt =====
-- crates/corx-server/src/state.rs: the policies that serve requests, built from a configuration. A
-- reload keeps the rate limiter, the circuit breaker and the HTTP client where their settings are
-- unchanged. The HTTP client is seen by its settings, its target policy and its address guard; an
-- error of `anyhow` is the text that it displays.
pub mod Fits
pub mod Current
pub mod Reload
pub mod Frozen
pub mod Life
mod Tests
use corx.Circuit.{CircuitBreaker, from_config}
use corx.Config.Limits.{LimitsConfig}
use corx.Config.Listener.{ServerConfig}
use corx.Config.Security.{SecurityConfig}
use corx.Config.Tree.{Config}
use corx.Cors.{CorsPolicy, from_config as cors_from_config}
use corx.Config.Equality.{
  ssrf_equal, target_equal, upstream_equal, circuit_equal, rate_limit_equal, redirect_equal,
}
use corx.Equality.{nat_equal, bool_equal}
use corx.Headers.{HeaderFilter, filter_map, try_new}
use corx.Prelude.{
  Bool, ◌&&◌, ◌⊎◌, inl, inr, Option, none, some, List, ◌++◌, String, Text, codes, map,
  to_ascii_lowercase, to_ascii_uppercase, if◌then◌else◌,
}
use corx.Server.Crates.{Crates}
use corx.Server.OriginGuard.{OriginPolicy}
use corx.Server.RateLimit.{RateLimiter}
use corx.Server.RateLimit.Build.{from_config as limiter_from_config}
use corx.Ssrf.{SsrfGuard, new}
use corx.Target.{TargetPolicy, from_config as target_from_config}
use corx.Upstream.{ClientConfig, Upstream}

-- the operator `?`, for errors that are texts
infixl 5 ◌>>=◌
abbrev pub ◌>>=◌ : {A B : Type 0} → Text ⊎ A → (A → Text ⊎ B) → Text ⊎ B
inl message >>= rest = inl message
inr value >>= rest = rest value

module _ (crates : Crates) where
  open crates use {http, uris, hosts, texts, ips, governor, regexes, nets}

  -- `OriginPolicy::from_config`; a method that does not parse is left out
  unfoldable pub origin_from_config : SecurityConfig → OriginPolicy
  origin_from_config cfg = record {
    blacklist = cfg.origin_blacklist;
    whitelist = cfg.origin_whitelist;
    blocked_methods = filter_map crates.method_of (map to_ascii_uppercase cfg.block_methods);
    required_header_any_of =
        map (λ s. crates.header_name (to_ascii_lowercase s)) cfg.require_header;
  }

  -- `Upstream`, with its address guard
  pub record Client : Type 0 where
    pub upstream : Upstream hosts http uris
    pub ssrf : SsrfGuard nets

  -- `LivePolicies`; `guard` is a `RequestGuard`, which has the origin policy and the rate limiter
  pub record LivePolicies : Type 0 where
    pub config : Config nets
    pub cors : CorsPolicy http
    pub request_filter : HeaderFilter
    pub response_filter : HeaderFilter
    pub origin : OriginPolicy
    pub rate_limiter : RateLimiter texts ips governor regexes nets
    pub target_policy : TargetPolicy
    pub circuit : CircuitBreaker hosts
    pub client : Client

  -- the `ClientConfig` of `build_from`
  unfoldable pub client_config : Config nets → ClientConfig
  client_config config = record {
    pool_max_idle_per_host = config.upstream.pool_max_idle_per_host;
    pool_idle_timeout = config.upstream.pool_idle_timeout;
    connect_timeout = config.limits.connect_timeout;
    user_agent = config.upstream.user_agent;
    max_redirects = config.limits.max_redirects;
    allow_https_to_http_downgrade = config.limits.allow_https_to_http_downgrade;
    redirect_policy = config.limits.redirect_policy;
  }

  unfoldable pub upstream_config_eq : Config nets → Config nets → Bool
  upstream_config_eq a b =
      (ssrf_equal nets crates.net_equal).eq a.ssrf b.ssrf
      && (target_equal.eq a.target b.target
          && (upstream_equal.eq a.upstream b.upstream
              && (nat_equal.eq a.limits.connect_timeout b.limits.connect_timeout
                  && (nat_equal.eq a.limits.max_redirects b.limits.max_redirects
                      && (bool_equal.eq a.limits.allow_https_to_http_downgrade
                            b.limits.allow_https_to_http_downgrade
                          && redirect_equal.eq a.limits.redirect_policy
                              b.limits.redirect_policy)))))

  -- `HeaderFilter::try_new` with its `map_err`
  unfoldable pub filter_of : String → List Text → Text ⊎ HeaderFilter
  filter_of message names = elim (try_new http names) [
    | none ↦ inl (codes message)
    | some filter ↦ inr filter
  ]

  -- the `match previous` of the rate limiter
  unfoldable pub rate_limiter_of :
      Config nets → Option LivePolicies → Text ⊎ RateLimiter texts ips governor regexes nets
  rate_limiter_of config none =
      limiter_from_config texts ips governor regexes nets config.rate_limit
  rate_limiter_of config (some prev) =
      if (rate_limit_equal nets crates.net_equal).eq prev.config.rate_limit config.rate_limit
      then inr prev.rate_limiter
      else limiter_from_config texts ips governor regexes nets config.rate_limit

  -- the `match previous` of the circuit breaker
  unfoldable pub circuit_of : Config nets → Option LivePolicies → CircuitBreaker hosts
  circuit_of config none = from_config hosts config.circuit_breaker
  circuit_of config (some prev) =
      if circuit_equal.eq prev.config.circuit_breaker config.circuit_breaker
      then prev.circuit
      else from_config hosts config.circuit_breaker

  -- `Upstream::new`, with the guard that it is given
  unfoldable pub new_client : Config nets → TargetPolicy → Text ⊎ Client
  new_client config target_policy = elim (crates.build_client (client_config config)) [
    | some message ↦ inl (codes "upstream client: " ++ message)
    | none ↦ inr (record {
      upstream = record { config = client_config config; target_policy = target_policy };
      ssrf = new nets config.ssrf;
    })
  ]

  -- the `match previous` of the upstream client
  unfoldable pub client_of : Config nets → TargetPolicy → Option LivePolicies → Text ⊎ Client
  client_of config target_policy none = new_client config target_policy
  client_of config target_policy (some prev) =
      if upstream_config_eq prev.config config
      then inr prev.client
      else new_client config target_policy

  -- `LivePolicies::build_from`, and `build` with `none`
  unfoldable pub build_from : Config nets → Option LivePolicies → Text ⊎ LivePolicies
  build_from config previous = do
    request_filter ←
        filter_of "security.remove_request_headers" config.security.remove_request_headers
    response_filter ←
        filter_of "security.remove_response_headers" config.security.remove_response_headers
    rate_limiter ← rate_limiter_of config previous
    client ← client_of config (target_from_config config.target) previous
    inr (record {
      config = config;
      cors = cors_from_config http config.cors;
      request_filter = request_filter;
      response_filter = response_filter;
      origin = origin_from_config config.security;
      rate_limiter = rate_limiter;
      target_policy = target_from_config config.target;
      circuit = circuit_of config previous;
      client = client;
    })

  -- `ServerBuild`, without the handles of metrics and the counters
  pub record ServerBuild : Type 0 where
    pub policies : LivePolicies
    pub immutable_server : ServerConfig
    pub immutable_limits : LimitsConfig
    pub immutable_metrics_endpoint : Text

  -- `ServerBuild::from_config`
  unfoldable pub server_from_config : Config nets → Text ⊎ ServerBuild
  server_from_config config = do
    policies ← build_from config none
    inr (record {
      policies = policies;
      immutable_server = config.server;
      immutable_limits = config.limits;
      immutable_metrics_endpoint = config.observability.metrics_endpoint;
    })

-- ===== src/Config/Tree.antt =====
-- crates/corx-core/src/config/mod.rs: the whole configuration, and its defaults.
use corx.Circuit.{CircuitBreakerConfig}
use corx.Config.Limits.{LimitsConfig, default_limits, from_secs}
use corx.Config.Listener.{
  ServerConfig, UpstreamConfig, ObservabilityConfig, default_server, default_upstream,
  default_observability,
}
use corx.Config.RateLimit.{RateLimitConfig, default_rate_limit}
use corx.Config.Security.{SecurityConfig, default_security}
use corx.Cors.{CorsConfig, CorsPolicyKind}
use corx.Forwarded.{ForwardedConfig}
use corx.Prelude.{true, false, [], ◌∷◌, Text, codes}
use corx.Ssrf.{IpNets, SsrfConfig, SsrfMode}
use corx.Target.{TargetConfig, default_config as default_target}

-- `Default for CircuitBreakerConfig`
abbrev pub default_circuit : CircuitBreakerConfig
default_circuit = record {
  enabled = true;
  failure_threshold = 5;
  window = from_secs 30;
  open_duration = from_secs 30;
  half_open_max = 1;
  count_5xx = true;
  max_hosts = 8192;
}

-- `Default for ForwardedConfig`
abbrev pub default_forwarded : ForwardedConfig
default_forwarded = record { inject = true; trust_inbound_xff = false; inject_request_id = true }

-- `Default for CorsConfig`
abbrev pub default_cors : CorsConfig
default_cors = record {
  policy = CorsPolicyKind.reflect;
  origins = [];
  allow_any_origin = false;
  allowed_methods =
      codes "GET"
      ∷ codes "HEAD"
      ∷ codes "POST"
      ∷ codes "PUT"
      ∷ codes "DELETE"
      ∷ codes "PATCH"
      ∷ codes "OPTIONS"
      ∷ [];
  allowed_headers =
      codes "accept"
      ∷ codes "accept-language"
      ∷ codes "authorization"
      ∷ codes "content-language"
      ∷ codes "content-type"
      ∷ codes "x-requested-with"
      ∷ codes "x-request-id"
      ∷ [];
  exposed_headers = codes "x-corx-status" ∷ codes "x-corx-target-url" ∷ codes "x-request-id" ∷ [];
  max_age = from_secs 600;
  allow_credentials = false;
  allow_private_network = false;
}

module _ (nets : IpNets) where
  -- `Config`
  pub record Config : Type 0 where
    pub server : ServerConfig
    pub limits : LimitsConfig
    pub cors : CorsConfig
    pub security : SecurityConfig
    pub ssrf : SsrfConfig nets
    pub target : TargetConfig
    pub forwarded : ForwardedConfig
    pub rate_limit : RateLimitConfig nets
    pub circuit_breaker : CircuitBreakerConfig
    pub upstream : UpstreamConfig
    pub observability : ObservabilityConfig

  -- `Default for SsrfConfig`
  abbrev pub default_ssrf : SsrfConfig nets
  default_ssrf = record {
    mode = SsrfMode.strict;
    allow_ipv6 = true;
    extra_blocked_cidrs = [];
    extra_allowed_cidrs = [];
  }

  -- `Default for Config`
  abbrev pub default_config : Text → Config
  default_config user_agent = record {
    server = default_server;
    limits = default_limits;
    cors = default_cors;
    security = default_security;
    ssrf = default_ssrf;
    target = default_target;
    forwarded = default_forwarded;
    rate_limit = default_rate_limit nets;
    circuit_breaker = default_circuit;
    upstream = default_upstream user_agent;
    observability = default_observability;
  }

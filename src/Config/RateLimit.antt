-- ===== src/Config/RateLimit.antt =====
-- crates/corx-core/src/config/rate_limit.rs: the four dimensions of the rate limiter. A dimension
-- whose `rps` is 0 is switched off.
use corx.Prelude.{ℕ, Bool, true, List, [], String}
use corx.Ssrf.{IpNets}

-- `OriginLimitConfig`
pub record OriginLimitConfig : Type 0 where
  pub rps : ℕ
  pub burst : ℕ
  pub unlimited_patterns : List String

-- `HostLimitConfig`
pub record HostLimitConfig : Type 0 where
  pub rps : ℕ
  pub burst : ℕ

-- `GlobalLimitConfig`
pub record GlobalLimitConfig : Type 0 where
  pub rps : ℕ
  pub burst : ℕ

module _ (nets : IpNets) where
  -- `IpLimitConfig`
  pub record IpLimitConfig : Type 0 where
    pub rps : ℕ
    pub burst : ℕ
    pub trusted_cidrs : List nets.IpNet

  -- `RateLimitConfig`
  pub record RateLimitConfig : Type 0 where
    pub enabled : Bool
    pub max_keys : ℕ
    pub origin : OriginLimitConfig
    pub ip : IpLimitConfig
    pub target_host : HostLimitConfig
    pub global : GlobalLimitConfig

  -- `Default for RateLimitConfig`
  abbrev pub default_rate_limit : RateLimitConfig
  default_rate_limit = record {
    enabled = true;
    max_keys = 16384;
    origin = record { rps = 50; burst = 100; unlimited_patterns = [] };
    ip = record { rps = 30; burst = 60; trusted_cidrs = [] };
    target_host = record { rps = 100; burst = 200 };
    global = record { rps = 5000; burst = 10000 };
  }

-- ===== src/Config/Limits.antt =====
-- crates/corx-core/src/config/limits.rs: limits of size and time. Durations are in nanoseconds.
use corx.Prelude.{ℕ, ◌*◌, Bool, false}

-- `RedirectPolicy`
pub data RedirectPolicy : Type 0 where
  follow block rewrite : RedirectPolicy

-- `LimitsConfig`
pub record LimitsConfig : Type 0 where
  pub max_request_body_bytes : ℕ
  pub max_request_header_bytes : ℕ
  pub max_response_body_bytes : ℕ
  pub inflight_max : ℕ
  pub request_timeout : ℕ
  pub connect_timeout : ℕ
  pub max_redirects : ℕ
  pub allow_https_to_http_downgrade : Bool
  pub redirect_policy : RedirectPolicy

-- `MIB`
abbrev mib : ℕ
mib = 1048576

-- `Duration::from_secs`
abbrev pub from_secs : ℕ → ℕ
from_secs n = n * 1000000000

-- `Default for LimitsConfig`
abbrev pub default_limits : LimitsConfig
default_limits = record {
  max_request_body_bytes = 10 * mib;
  max_request_header_bytes = 32 * 1024;
  max_response_body_bytes = 50 * mib;
  inflight_max = 1000;
  request_timeout = from_secs 60;
  connect_timeout = from_secs 10;
  max_redirects = 5;
  allow_https_to_http_downgrade = false;
  redirect_policy = follow;
}

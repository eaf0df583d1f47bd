-- ===== src/Config/Security.antt =====
-- crates/corx-core/src/config/security.rs: the guards of a request, and bearer tokens. `PreflightMode`
-- decides whether a preflight passes the guards.
use corx.Prelude.{Bool, true, false, List, [], ◌∷◌, Text, codes}

-- `PreflightMode`
pub data PreflightMode : Type 0 where
  enforce open_mode : PreflightMode

-- `PreflightConfig`
pub record PreflightConfig : Type 0 where
  pub mode : PreflightMode
  pub rate_limit : Bool

-- `AuthMode`; `None` is `off`
pub data AuthMode : Type 0 where
  off bearer : AuthMode

-- `AuthConfig`
pub record AuthConfig : Type 0 where
  pub mode : AuthMode
  pub bearer_tokens : List Text

-- `SecurityConfig`
pub record SecurityConfig : Type 0 where
  pub require_header : List Text
  pub block_methods : List Text
  pub remove_request_headers : List Text
  pub remove_response_headers : List Text
  pub origin_blacklist : List Text
  pub origin_whitelist : List Text
  pub preflight : PreflightConfig
  pub auth : AuthConfig
  pub require_client_binding : Bool

-- `Default for PreflightConfig`
abbrev pub default_preflight : PreflightConfig
default_preflight = record { mode = enforce; rate_limit = true }

-- `Default for AuthConfig`
abbrev pub default_auth : AuthConfig
default_auth = record { mode = off; bearer_tokens = [] }

-- `Default for SecurityConfig`
abbrev pub default_security : SecurityConfig
default_security = record {
  require_header = codes "origin" ∷ [];
  block_methods = codes "CONNECT" ∷ codes "TRACE" ∷ [];
  remove_request_headers = codes "cookie" ∷ codes "cookie2" ∷ [];
  remove_response_headers = codes "set-cookie" ∷ codes "set-cookie2" ∷ [];
  origin_blacklist = [];
  origin_whitelist = [];
  preflight = default_preflight;
  auth = default_auth;
  require_client_binding = false;
}

-- `matches!(cfg.security.auth.mode, AuthMode::Bearer)`
abbrev pub is_bearer : AuthMode → Bool
is_bearer off = false
is_bearer bearer = true

-- ===== src/Config/Validate/Sections.antt =====
-- What the checks of each section ask of it.
use corx.Circuit.{CircuitBreakerConfig}
use corx.Config.Limits.{LimitsConfig}
use corx.Config.Listener.{TlsConfig, UpstreamConfig}
use corx.Config.Security.{SecurityConfig, bearer, is_bearer}
use corx.Config.Validate.{
  validate_cors, is_wildcard, is_reflect, is_explicit, is_allowlist, validate_target, validate_auth,
  is_bound, validate_circuit, validate_limits, validate_upstream, validate_tls,
}
use corx.Cors.{CorsConfig, CorsPolicyKind, wildcard, reflect, explicit}
use corx.Prelude.{
  ℕ, ◌<◌, ◌≡◌, ◌≢◌, ◌↔◌, Bool, true, false, ◌&&◌, not, Option, none, some, List, [], String, Text,
  trim, ◌==◌, is_empty, ◌⊎◌, arith,
}
use corx.Target.{TargetConfig, TargetMode, allowlist}
use corx.Config.Validate.Report.{
  Checks, error_if-Checks, warn_if-Checks, Checks-then, Checks-as, Checks-enabled,
}

abbrev pub CorsIsSafe : CorsConfig → Type 0
CorsIsSafe cors =
    (cors.policy ≡ wildcard → cors.allow_credentials ≡ false)
    × (cors.policy ≡ explicit → cors.origins ≢ [])
    × (cors.policy ≡ reflect → cors.allow_any_origin ≡ true → cors.allow_credentials ≡ false)

cors_tests_iff :
    (policy : CorsPolicyKind) (origins : List Text) (any creds : Bool)
    → (((((is_wildcard policy && creds) ≡ false)
            × ((is_explicit policy && is_empty origins) ≡ false))
          × ((is_reflect policy && any && creds) ≡ false))
        × Unit {0})
      ↔ ((policy ≡ wildcard → creds ≡ false)
          × (policy ≡ explicit → origins ≢ [])
          × (policy ≡ reflect → any ≡ true → creds ≡ false))
cors_tests_iff policy origins any creds = ground arith

pub validate_cors-Checks : (cors : CorsConfig) → Checks (validate_cors cors) (CorsIsSafe cors)
unfolding validate_cors
validate_cors-Checks cors =
    Checks-as (cors_tests_iff cors.policy cors.origins cors.allow_any_origin cors.allow_credentials)
      (Checks-then
        (Checks-then (Checks-then (error_if-Checks _ _ _) (error_if-Checks _ _ _))
          (error_if-Checks _ _ _))
        (warn_if-Checks _ _ _))

abbrev pub LimitsAreSafe : LimitsConfig → Type 0
LimitsAreSafe limits = 0 < limits.max_request_body_bytes

is_zero_iff : (n : ℕ) → ((Unit {0} × Unit {0}) × ((n == 0) ≡ false)) ↔ (0 < n)
is_zero_iff n = ground arith

pub validate_limits-Checks :
    (limits : LimitsConfig) → Checks (validate_limits limits) (LimitsAreSafe limits)
unfolding validate_limits
validate_limits-Checks limits = Checks-as (is_zero_iff limits.max_request_body_bytes) (
    Checks-then (Checks-then (warn_if-Checks _ _ _) (warn_if-Checks _ _ _)) (error_if-Checks _ _ _))

abbrev pub CircuitIsSafe : CircuitBreakerConfig → Type 0
CircuitIsSafe circuit = circuit.enabled ≡ true → 0 < circuit.failure_threshold

threshold_iff :
    (enabled : Bool) (n : ℕ) → (enabled ≡ true → (n == 0) ≡ false) ↔ (enabled ≡ true → 0 < n)
threshold_iff enabled n = ground arith

pub validate_circuit-Checks :
    (circuit : CircuitBreakerConfig) → Checks (validate_circuit circuit) (CircuitIsSafe circuit)
unfolding validate_circuit
validate_circuit-Checks circuit =
    Checks-as (threshold_iff circuit.enabled circuit.failure_threshold)
      (Checks-enabled circuit.enabled (error_if-Checks _ _ _))

abbrev pub TargetIsSafe : TargetConfig → Type 0
TargetIsSafe target = target.mode ≡ allowlist → target.hosts ≢ []

hosts_iff :
    (mode : TargetMode) (hosts : List Text)
    → ((is_allowlist mode && is_empty hosts) ≡ false) ↔ (mode ≡ allowlist → hosts ≢ [])
hosts_iff mode hosts = ground arith

pub validate_target-Checks :
    (target : TargetConfig) → Checks (validate_target target) (TargetIsSafe target)
unfolding validate_target
validate_target-Checks target =
    Checks-as (hosts_iff target.mode target.hosts) (error_if-Checks _ _ _)

abbrev pub UpstreamIsSafe : UpstreamConfig → Type 0
UpstreamIsSafe upstream = (0 < upstream.pool_max_idle_per_host) × (trim upstream.user_agent ≢ [])

upstream_iff :
    (n : ℕ) (agent : Text)
    → (((n == 0) ≡ false) × (is_empty agent ≡ false)) ↔ ((0 < n) × (agent ≢ []))
upstream_iff n agent = ground arith

pub validate_upstream-Checks :
    (upstream : UpstreamConfig) → Checks (validate_upstream upstream) (UpstreamIsSafe upstream)
unfolding validate_upstream
validate_upstream-Checks upstream =
    Checks-as (upstream_iff upstream.pool_max_idle_per_host (trim upstream.user_agent))
      (Checks-then (error_if-Checks _ _ _) (error_if-Checks _ _ _))

abbrev pub TlsIsSafe : (String → Bool) → Option TlsConfig → Type 0
TlsIsSafe is_file none = Unit
TlsIsSafe is_file (some tls) = (is_file tls.cert_path ≡ true) × (is_file tls.key_path ≡ true)

files_iff :
    (cert key : Bool) → ((not cert ≡ false) × (not key ≡ false)) ↔ ((cert ≡ true) × (key ≡ true))
files_iff cert key = ground arith

pub validate_tls-Checks :
    (is_file : String → Bool) (tls : Option TlsConfig)
    → Checks (validate_tls is_file tls) (TlsIsSafe is_file tls)
unfolding validate_tls
validate_tls-Checks is_file none = record { law = λ report. (λ h. (h, tt), λ h. h.0) }
validate_tls-Checks is_file (some tls) =
    Checks-as (files_iff (is_file tls.cert_path) (is_file tls.key_path))
      (Checks-then (error_if-Checks _ _ _) (error_if-Checks _ _ _))

-- The authority that signs the certificates of clients is configured.
abbrev pub HasClientCa : Option TlsConfig → Type 0
HasClientCa none = ⊥
HasClientCa (some tls) = tls.client_ca_path ≢ none

abbrev pub SecurityIsSafe : SecurityConfig → Option TlsConfig → Type 0
SecurityIsSafe security tls =
    (security.auth.mode ≡ bearer → security.auth.bearer_tokens ≢ [])
    × (security.require_client_binding ≡ true
        → (security.origin_whitelist ≢ [])
          ⊎ (((security.auth.mode ≡ bearer) × (security.auth.bearer_tokens ≢ []))
              ⊎ HasClientCa tls))

security_iff :
    (security : SecurityConfig) (tls : Option TlsConfig)
    → (((is_bearer security.auth.mode && is_empty security.auth.bearer_tokens) ≡ false)
        × ((security.require_client_binding && not (is_bound security tls)) ≡ false))
      ↔ SecurityIsSafe security tls
unfolding is_bound
security_iff security none = ground arith
security_iff security (some tls) = ground arith

pub validate_auth-Checks :
    (security : SecurityConfig) (tls : Option TlsConfig)
    → Checks (validate_auth security tls) (SecurityIsSafe security tls)
unfolding validate_auth
validate_auth-Checks security tls =
    Checks-as (security_iff security tls)
      (Checks-then (error_if-Checks _ _ _) (error_if-Checks _ _ _))

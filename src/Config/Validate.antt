-- ===== src/Config/Validate.antt =====
-- crates/corx-core/src/config/validate.rs: the checks of a configuration before the proxy starts. A
-- check pushes what it finds onto a report; `Path::is_file` is a parameter.
pub mod Report
pub mod Sections
pub mod Accepted
pub mod Credentials
use Prim.Native.String.{◌++◌ as append}
use corx.Circuit.{CircuitBreakerConfig}
use corx.Config.Limits.{LimitsConfig}
use corx.Config.Listener.{TlsConfig, UpstreamConfig}
use corx.Config.RateLimit.{RateLimitConfig}
use corx.Config.Security.{SecurityConfig, is_bearer}
use corx.Config.Tree.{Config}
use corx.Cors.{CorsConfig, CorsPolicyKind, wildcard, reflect, explicit, is_some}
use corx.Prelude.{
  ℕ, Bool, true, false, ◌&&◌, ◌||◌, not, Option, none, some, List, [], ◌∷◌, ◌++◌, String, Text,
  trim, ltb, leb, ◌==◌, is_empty, if◌then◌else◌, ◌⊎◌, inl, inr,
}
use corx.Ssrf.{IpNets, SsrfConfig, SsrfMode}
use corx.Target.{TargetConfig, TargetMode, allowlist}

-- `ConfigError`
pub record ConfigError : Type 0 where
  pub path : String
  pub reason : String

-- `ValidationReport`
pub record ValidationReport : Type 0 where
  pub errors : List ConfigError
  pub warnings : List ConfigError

-- `ValidationReport::has_errors`
unfoldable pub has_errors : ValidationReport → Bool
has_errors report = not (is_empty report.errors)

-- `if test { report.errors.push(ConfigError::new(path, reason)) }`
unfoldable pub error_if : Bool → String → String → ValidationReport → ValidationReport
error_if test path reason report =
    if test
    then record report { errors = report.errors ++ record { path = path; reason = reason } ∷ [] }
    else report

-- `if test { report.warnings.push(ConfigError::new(path, reason)) }`
unfoldable pub warn_if : Bool → String → String → ValidationReport → ValidationReport
warn_if test path reason report =
    if test
    then record report {
      warnings = report.warnings ++ record { path = path; reason = reason } ∷ [];
    }
    else report

-- the tests `matches!(.., CorsPolicyKind::..)`
abbrev pub is_wildcard : CorsPolicyKind → Bool
is_wildcard wildcard = true
is_wildcard _ = false

abbrev pub is_reflect : CorsPolicyKind → Bool
is_reflect reflect = true
is_reflect _ = false

abbrev pub is_explicit : CorsPolicyKind → Bool
is_explicit explicit = true
is_explicit _ = false

-- `matches!(cfg.target.mode, TargetMode::Allowlist)`
abbrev pub is_allowlist : TargetMode → Bool
is_allowlist allowlist = true
is_allowlist _ = false

-- `matches!(cfg.ssrf.mode, SsrfMode::Permissive { allow_private: true })`
abbrev pub admits_private : SsrfMode → Bool
admits_private SsrfMode.strict = false
admits_private (SsrfMode.permissive allow_private) = allow_private

unfoldable pub validate_cors : CorsConfig → ValidationReport → ValidationReport
validate_cors cors report =
    let report1 =
      error_if (is_wildcard cors.policy && cors.allow_credentials) "cors.allow_credentials"
        "wildcard policy + allow_credentials=true is rejected by browsers; switch the policy to `reflect` or `explicit`"
        report in
    let report2 =
      error_if (is_explicit cors.policy && is_empty cors.origins) "cors.origins"
        "policy is `explicit` but no origins are listed; the proxy would reject every cross-origin request"
        report1 in
    let report3 =
      error_if (is_reflect cors.policy && cors.allow_any_origin && cors.allow_credentials)
        "cors.allow_any_origin"
        "reflect + allow_any_origin + allow_credentials is unsafe; list explicit origins instead"
        report2 in
    warn_if (cors.allow_private_network && not (is_explicit cors.policy))
      "cors.allow_private_network"
      "Private Network Access should usually be paired with `policy = \"explicit\"` so that only known origins can reach the private network"
      report3

unfoldable pub validate_target : TargetConfig → ValidationReport → ValidationReport
validate_target target report =
    error_if (is_allowlist target.mode && is_empty target.hosts) "target.hosts"
      "mode is `allowlist` but hosts is empty; every target would be rejected" report

-- the test of `require_client_binding`
unfoldable pub is_bound : SecurityConfig → Option TlsConfig → Bool
is_bound security tls =
    not (is_empty security.origin_whitelist)
    || (is_bearer security.auth.mode && not (is_empty security.auth.bearer_tokens))
    || elim tls [ none ↦ false | some t ↦ is_some t.client_ca_path ]

unfoldable pub validate_auth :
    SecurityConfig → Option TlsConfig → ValidationReport → ValidationReport
validate_auth security tls report =
    let report1 =
      error_if (is_bearer security.auth.mode && is_empty security.auth.bearer_tokens)
        "security.auth.bearer_tokens" "auth.mode is `bearer` but no tokens are configured" report in
    error_if (security.require_client_binding && not (is_bound security tls))
      "security.require_client_binding"
      "require_client_binding is true but none of origin_whitelist, bearer auth, or mTLS client CA is configured"
      report1

unfoldable pub validate_circuit : CircuitBreakerConfig → ValidationReport → ValidationReport
validate_circuit circuit report =
    if not circuit.enabled
    then report
    else error_if (circuit.failure_threshold == 0) "circuit_breaker.failure_threshold"
        "must be > 0 when the breaker is enabled" report

unfoldable pub validate_limits : LimitsConfig → ValidationReport → ValidationReport
validate_limits limits report =
    let report1 =
      warn_if (leb limits.request_timeout limits.connect_timeout) "limits.connect_timeout"
        "connect_timeout >= request_timeout: the request budget will be exhausted before the upstream can respond"
        report in
    let report2 =
      warn_if (ltb 32 limits.max_redirects) "limits.max_redirects"
        "values above 32 are rarely useful and amplify resource consumption" report1 in
    error_if (limits.max_request_body_bytes == 0) "limits.max_request_body_bytes" "must be > 0"
      report2

unfoldable pub check_dimension : String → ℕ → ℕ → ValidationReport → ValidationReport
check_dimension prefix rps burst report =
    if rps == 0
    then report
    else if burst == 0
    then error_if true (append prefix ".burst") "must be > 0 when the dimension's rps is > 0" report
    else warn_if (ltb burst rps) (append prefix ".burst")
        "burst smaller than rps gives no headroom for bursty clients" report

unfoldable pub validate_upstream : UpstreamConfig → ValidationReport → ValidationReport
validate_upstream upstream report =
    let report1 =
      error_if (upstream.pool_max_idle_per_host == 0) "upstream.pool_max_idle_per_host"
        "must be > 0; setting to 0 disables connection reuse and collapses throughput" report in
    error_if (is_empty (trim upstream.user_agent)) "upstream.user_agent" "must be a non-empty token"
      report1

unfoldable pub validate_tls :
    (String → Bool) → Option TlsConfig → ValidationReport → ValidationReport
validate_tls is_file none report = report
validate_tls is_file (some tls) report =
    let report1 =
      error_if (not (is_file tls.cert_path)) "server.tls.cert_path"
        (append "certificate file not found: " tls.cert_path) report in
    error_if (not (is_file tls.key_path)) "server.tls.key_path"
      (append "private key file not found: " tls.key_path) report1

module _ (nets : IpNets) where
  unfoldable pub validate_rate_limit : RateLimitConfig nets → ValidationReport → ValidationReport
  validate_rate_limit cfg report =
      if not cfg.enabled
      then report
      else (let report1 =
            error_if (cfg.max_keys == 0) "rate_limit.max_keys"
              "must be > 0 when rate limiting is enabled" report in
          let any_enabled =
            ltb 0 cfg.origin.rps
            || ltb 0 cfg.ip.rps
            || ltb 0 cfg.target_host.rps
            || ltb 0 cfg.global.rps in
          let report2 =
            error_if (not any_enabled) "rate_limit"
              "rate_limit.enabled = true but every GCRA dimension is at 0; either disable rate-limiting or set at least one of origin.rps / ip.rps / target_host.rps / global.rps (inflight is limits.inflight_max)"
              report1 in
          let report3 =
            check_dimension "rate_limit.origin" cfg.origin.rps cfg.origin.burst report2 in
          let report4 = check_dimension "rate_limit.ip" cfg.ip.rps cfg.ip.burst report3 in
          let report5 =
            check_dimension "rate_limit.target_host" cfg.target_host.rps cfg.target_host.burst
              report4 in
          check_dimension "rate_limit.global" cfg.global.rps cfg.global.burst report5)

  unfoldable pub validate_ssrf : SsrfConfig nets → ValidationReport → ValidationReport
  validate_ssrf ssrf report =
      warn_if (admits_private ssrf.mode && is_empty ssrf.extra_blocked_cidrs) "ssrf.mode"
        "permissive mode with `allow_private=true` and no extra block list admits every IP, including AWS / GCP metadata. Add explicit `extra_blocked_cidrs` or switch to `strict` for production."
        report

  -- `Config::validate_full`
  unfoldable pub validate_full : (String → Bool) → Config nets → ValidationReport
  validate_full is_file cfg =
      let report1 = validate_cors cfg.cors (record { errors = []; warnings = [] }) in
      let report2 = validate_limits cfg.limits report1 in
      let report3 = validate_rate_limit cfg.rate_limit report2 in
      let report4 = validate_upstream cfg.upstream report3 in
      let report5 = validate_tls is_file cfg.server.tls report4 in
      let report6 = validate_ssrf cfg.ssrf report5 in
      let report7 = validate_target cfg.target report6 in
      let report8 = validate_auth cfg.security cfg.server.tls report7 in
      validate_circuit cfg.circuit_breaker report8

  -- `Config::validate`; an error is on the left
  unfoldable pub validate : (String → Bool) → Config nets → ConfigError ⊎ Unit {0}
  validate is_file cfg = elim (validate_full is_file cfg).errors [
    | [] ↦ inr tt
    | first ∷ others ↦ inl first
  ]

-- ===== src/Config/Validate/Accepted.antt =====
-- Which configurations `Config::validate` accepts.
use corx.Config.RateLimit.{RateLimitConfig}
use corx.Config.Tree.{Config}
use corx.Config.Validate.{
  validate_cors, validate_target, validate_auth, validate_circuit, validate_limits, check_dimension,
  validate_upstream, validate_tls, validate_rate_limit, validate_ssrf, validate_full, validate,
}
use corx.Prelude.{
  ℕ, ◌<◌, ◌≡◌, ◌↔◌, Bool, true, false, ◌||◌, not, [], String, ltb, ◌==◌, ◌⊎◌, inr, arith, refl,
}
use corx.Ssrf.{IpNets, SsrfConfig}
use corx.Config.Validate.Report.{
  Checks-none, Checks-if, clean, Checks, error_if-Checks, warn_if-Checks, Checks-then, Checks-as,
  Checks-enabled,
}
use corx.Config.Validate.Sections.{
  CorsIsSafe, LimitsAreSafe, CircuitIsSafe, TargetIsSafe, UpstreamIsSafe, TlsIsSafe, SecurityIsSafe,
  validate_cors-Checks, validate_limits-Checks, validate_circuit-Checks, validate_target-Checks,
  validate_upstream-Checks, validate_tls-Checks, validate_auth-Checks,
}

-- A dimension that limits anything has a burst.
abbrev pub DimensionIsSafe : ℕ → ℕ → Type 0
DimensionIsSafe rps burst = 0 < rps → 0 < burst

burst_iff :
    (rps burst : ℕ)
    → (((rps == 0) ≡ true → Unit {0})
        × ((rps == 0) ≡ false
            → ((burst == 0) ≡ true → true ≡ false) × ((burst == 0) ≡ false → Unit {0})))
      ↔ DimensionIsSafe rps burst
burst_iff rps burst = (λ h e. ground arith, λ h. ground arith)

check_dimension-Checks :
    (prefix : String) (rps burst : ℕ)
    → Checks (check_dimension prefix rps burst) (DimensionIsSafe rps burst)
unfolding check_dimension
check_dimension-Checks prefix rps burst = Checks-as (burst_iff rps burst) (
    Checks-if (rps == 0) Checks-none
      (Checks-if (burst == 0) (error_if-Checks true _ _) (warn_if-Checks _ _ _)))

module _ (nets : IpNets) where
  -- The map of keys has room, some dimension limits something, and each that does has a burst.
  abbrev pub RateLimitIsSafe : RateLimitConfig nets → Type 0
  RateLimitIsSafe cfg =
      cfg.enabled ≡ true
      → ((0 < cfg.max_keys)
          × ((0 < cfg.origin.rps)
              ⊎ ((0 < cfg.ip.rps) ⊎ ((0 < cfg.target_host.rps) ⊎ (0 < cfg.global.rps)))))
        × ((DimensionIsSafe cfg.origin.rps cfg.origin.burst
              × DimensionIsSafe cfg.ip.rps cfg.ip.burst)
            × (DimensionIsSafe cfg.target_host.rps cfg.target_host.burst
                × DimensionIsSafe cfg.global.rps cfg.global.burst))

  any_enabled_iff :
      (keys a b c d : ℕ)
      → (((keys == 0) ≡ false) × (not (ltb 0 a || ltb 0 b || ltb 0 c || ltb 0 d) ≡ false))
        ↔ ((0 < keys) × ((0 < a) ⊎ ((0 < b) ⊎ ((0 < c) ⊎ (0 < d)))))
  any_enabled_iff keys a b c d = (λ e. ground arith, λ e. ground arith)

  regroup :
      {P Q : Type 0} {A B C D : Type 0}
      → P ↔ Q
      → ((((P × A) × B) × C) × D) ↔ (Q × ((A × B) × (C × D)))
  regroup e = (
    λ h. (e.0 h.0.0.0.0, ((h.0.0.0.1, h.0.0.1), (h.0.1, h.1))),
    λ h. ((((e.1 h.0, h.1.0.0), h.1.0.1), h.1.1.0), h.1.1.1),
  )

  validate_rate_limit-Checks :
      (cfg : RateLimitConfig nets) → Checks (validate_rate_limit nets cfg) (RateLimitIsSafe cfg)
  unfolding validate_rate_limit
  validate_rate_limit-Checks cfg = Checks-enabled cfg.enabled (
      Checks-as
        (regroup (
          any_enabled_iff cfg.max_keys cfg.origin.rps cfg.ip.rps cfg.target_host.rps
            cfg.global.rps))
        (Checks-then
          (Checks-then
            (Checks-then
              (Checks-then (Checks-then (error_if-Checks _ _ _) (error_if-Checks _ _ _))
                (check_dimension-Checks _ _ _))
              (check_dimension-Checks _ _ _))
            (check_dimension-Checks _ _ _))
          (check_dimension-Checks _ _ _)))

  validate_ssrf-Checks : (ssrf : SsrfConfig nets) → Checks (validate_ssrf nets ssrf) Unit
  unfolding validate_ssrf
  validate_ssrf-Checks ssrf = warn_if-Checks _ _ _

  -- What the checks ask of a configuration.
  pub record IsAcceptable (is_file : String → Bool) (cfg : Config nets) : Type 0 where
    pub cors : CorsIsSafe cfg.cors
    pub limits : LimitsAreSafe cfg.limits
    pub rate_limit : RateLimitIsSafe cfg.rate_limit
    pub upstream : UpstreamIsSafe cfg.upstream
    pub tls : TlsIsSafe is_file cfg.server.tls
    pub target : TargetIsSafe cfg.target
    pub security : SecurityIsSafe cfg.security cfg.server.tls
    pub circuit : CircuitIsSafe cfg.circuit_breaker

  -- the nine checks, one after the other
  full-Checks :
      (is_file : String → Bool) (cfg : Config nets)
      → Checks
          (λ report. validate_circuit cfg.circuit_breaker (
            validate_auth cfg.security cfg.server.tls (
              validate_target cfg.target (
                validate_ssrf nets cfg.ssrf (
                  validate_tls is_file cfg.server.tls (
                    validate_upstream cfg.upstream (
                      validate_rate_limit nets cfg.rate_limit
                        (validate_limits cfg.limits (validate_cors cfg.cors report)))))))))
          ((((((((CorsIsSafe cfg.cors × LimitsAreSafe cfg.limits) × RateLimitIsSafe cfg.rate_limit)
                      × UpstreamIsSafe cfg.upstream)
                    × TlsIsSafe is_file cfg.server.tls)
                  × Unit {0})
                × TargetIsSafe cfg.target)
              × SecurityIsSafe cfg.security cfg.server.tls)
            × CircuitIsSafe cfg.circuit_breaker)
  full-Checks is_file cfg =
      Checks-then
        (Checks-then
          (Checks-then
            (Checks-then
              (Checks-then
                (Checks-then
                  (Checks-then (Checks-then (validate_cors-Checks _) (validate_limits-Checks _))
                    (validate_rate_limit-Checks _))
                  (validate_upstream-Checks _))
                (validate_tls-Checks _ _))
              (validate_ssrf-Checks _))
            (validate_target-Checks _))
          (validate_auth-Checks _ _))
        (validate_circuit-Checks _)

  validate_full-clean_iff :
      (is_file : String → Bool) (cfg : Config nets)
      → (clean (validate_full nets is_file cfg) ≡ true) ↔ IsAcceptable is_file cfg
  unfolding validate_full clean
  validate_full-clean_iff is_file cfg =
      let (to, from) = (full-Checks is_file cfg).law (record { errors = []; warnings = [] }) in
      (
        λ e.
            let ((((((((c, l), r), u), t), _), g), s), b) = (to e).1 in
            record {
              cors = c;
              limits = l;
              rate_limit = r;
              upstream = u;
              tls = t;
              target = g;
              security = s;
              circuit = b;
            },
        λ h. from (
          refl,
          (
            (
              ((((((h.cors, h.limits), h.rate_limit), h.upstream), h.tls), tt), h.target),
              h.security,
            ),
            h.circuit,
          ),
        ),
      )

  validate-clean_iff :
      (is_file : String → Bool) (cfg : Config nets)
      → (validate nets is_file cfg ≡ inr tt) ↔ (clean (validate_full nets is_file cfg) ≡ true)
  unfolding validate clean
  validate-clean_iff is_file cfg = (λ e. ground arith, λ e. ground arith)

  -- A configuration is accepted exactly when its CORS section does not combine credentials with a
  -- wildcard or with the reflection of any origin, and lists origins if they are to be explicit; the
  -- largest size of a request body is not 0; a rate limiter that is enabled has room for keys, a
  -- dimension that limits something, and a burst for each that does; the pool of idle connections is
  -- not 0 and the user agent is not blank; the TLS files exist; an allowlist is not empty; the mode
  -- `bearer` has a token; where the binding of clients is asked for, there is a list of origins,
  -- bearer tokens or an authority for client certificates; and a circuit breaker that is enabled has a
  -- threshold that is not 0.
  pub validate-IsAcceptable_iff :
      (is_file : String → Bool) (cfg : Config nets)
      → (validate nets is_file cfg ≡ inr tt) ↔ IsAcceptable is_file cfg
  validate-IsAcceptable_iff is_file cfg =
      let (a, b) = validate-clean_iff is_file cfg in
      let (c, d) = validate_full-clean_iff is_file cfg in (λ e. c (a e), λ h. b (d h))

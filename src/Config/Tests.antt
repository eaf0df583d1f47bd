-- ===== src/Config/Tests.antt =====
-- The checks of the default configuration and of some variants of it.
use corx.Config.Tree.{Config, default_config}
use corx.Config.Validate.{
  validate, validate_full, validate_cors, validate_target, validate_auth, validate_circuit,
  validate_limits, validate_rate_limit, check_dimension, validate_upstream, validate_tls,
  validate_ssrf, error_if, warn_if, is_bound,
}
use corx.Config.Validate.Accepted.{IsAcceptable, validate-IsAcceptable_iff}
use corx.Config.Validate.Credentials.{IsListed, credentials-origin}
use corx.Cors.{CorsPolicyKind, from_config, apply_to_response}
use corx.Error.{IpAddr}
use corx.Http.Assoc.{assoc_http}
use corx.Prelude.{
  ℕ, ◌≡◌, ◌↔◌, refl, Bool, true, false, inl, inr, none, List, ◌⊎◌, [], ◌∷◌, String, Text, codes,
  trim,
}
use corx.Ssrf.{IpNets}

-- networks of one address
abbrev is_v4 : ℕ → IpAddr → Bool
is_v4 n (IpAddr.v4 a) = true
is_v4 n (IpAddr.v6 a) = false

abbrev nets : IpNets
nets = record { IpNet = ℕ; parse = λ t. none; contains = is_v4 }

abbrev defaults : Config nets
defaults = default_config nets (codes "corx/0")

abbrev no_file : String → Bool
no_file path = false

program : Unit {0}
unfolding validate validate_full validate_cors validate_target validate_auth validate_circuit
    validate_limits validate_rate_limit check_dimension validate_upstream validate_tls validate_ssrf
    error_if warn_if is_bound trim
program = tt

-- The test `defaults-validate_clean`.
defaults-validate_clean : validate nets no_file defaults ≡ inr tt
unfolding program
defaults-validate_clean = refl

abbrev without_burst : Config nets
without_burst = record defaults {
  rate_limit = record defaults.rate_limit {
    origin = record { rps = 10; burst = 0; unlimited_patterns = [] };
  };
}

-- The test `rate_limit_dimension_with_zero_burst_is_rejected`.
zero_burst :
    validate nets no_file (without_burst)
    ≡ inl (record {
      path = "rate_limit.origin.burst";
      reason = "must be > 0 when the dimension's rps is > 0";
    })
unfolding program
zero_burst = refl

validate-IsAcceptable_iff_example :
    (validate nets no_file defaults ≡ inr tt) ↔ IsAcceptable nets no_file defaults
validate-IsAcceptable_iff_example = validate-IsAcceptable_iff nets no_file defaults

-- explicit origins with credentials
abbrev credentialed : Config nets
credentialed = record defaults {
  cors = record defaults.cors {
    policy = CorsPolicyKind.explicit;
    origins = codes "https://a.test" ∷ [];
    allow_credentials = true;
  };
}

credentialed_accepted : validate nets no_file credentialed ≡ inr tt
unfolding program
credentialed_accepted = refl

-- A page of the listed origin asks, and the upstream allows any origin.
abbrev asking : List (String × Text)
asking = ("origin", codes "https://a.test") ∷ []

abbrev lax : List (String × Text)
lax = ("access-control-allow-origin", codes "*") ∷ []

credentials-origin_example :
    (let answer =
        apply_to_response assoc_http (from_config assoc_http credentialed.cors) asking lax in
      ((value : Text) × ((assoc_http.values answer "access-control-allow-origin" ≡ value ∷ [])
          × IsListed assoc_http nets credentialed value))
      ⊎ ((assoc_http.values answer "access-control-allow-origin"
            ≡ assoc_http.values lax "access-control-allow-origin")
          × (assoc_http.values answer "access-control-allow-credentials"
              ≡ assoc_http.values lax "access-control-allow-credentials")))
credentials-origin_example =
    credentials-origin assoc_http nets no_file credentialed asking lax credentialed_accepted refl

-- ===== src/Server/RateLimit/Tests.antt =====
-- The rate limiter with a governor that counts tokens, for one dimension of origins.
use corx.Config.Tree.{Config, default_config}
use corx.Config.Validate.{
  validate, validate_full, validate_cors, validate_target, validate_auth, validate_circuit,
  validate_limits, validate_rate_limit, check_dimension, validate_upstream, validate_tls,
  validate_ssrf, error_if, warn_if, is_bound,
}
use corx.Error.{IpAddr, ProxyError, ok, err}
use corx.Keys.Listed.{add}
use corx.Prelude.{
  ℕ, ◌≤◌, ◌≡◌, refl, Bool, true, false, inr, some, none, List, [], ◌∷◌, String, Text, codes, trim,
  text_eq,
}
use corx.Server.RateLimit.{
  RateContext, RateLimiter, admit_key, charge, admit_and_check, limit_origin, limit_ip, limit_host,
  limit_global, ◌then◌, check_dimensions, check,
}
use corx.Server.RateLimit.Accepted.{accepted-limits, limits_something}
use corx.Server.RateLimit.Admission.{answer, all_admit, charged, check-answer}
use corx.Server.RateLimit.Known.{texts, ips, governor, regexes, nets}
use corx.Server.RateLimit.Build.{from_config}
use corx.Server.RateLimit.Concurrent.{
  Shared, Reachable, begins, steps, inserts, stays, quiet-len-le,
}

abbrev limiter : ℕ → List Text → RateLimiter texts ips governor regexes nets
limiter tokens known = record {
  enabled = true;
  max_keys = 1;
  origin = some (record { counted = record { limiter = tokens; known = known }; unlimited = tt });
  ip = none;
  host = none;
  global = some 5;
}

abbrev from_a : RateContext
from_a = record { origin = some (codes "a"); client_ip = IpAddr.v4 1; target_host = none }

program : Unit {0}
unfolding check check_dimensions limit_origin limit_ip limit_host limit_global admit_and_check
    charge admit_key add text_eq ◌then◌
program = tt

-- The only place is taken by another origin, so neither limiter is charged.
full_table :
    check texts ips governor regexes nets from_a 0 (limiter 3 (codes "b" ∷ []))
    ≡ (err ProxyError.rate_limited, limiter 3 (codes "b" ∷ []))
unfolding program
full_table = refl

-- A known origin is admitted by a full table, and charges both.
known_origin :
    check texts ips governor regexes nets from_a 0 (limiter 3 (codes "a" ∷ []))
    ≡ (ok tt, record (limiter 2 (codes "a" ∷ [])) { global = some 4 })
unfolding program
known_origin = refl

check-answer_example :
    check texts ips governor regexes nets from_a 0 (limiter 3 (codes "b" ∷ [])) ≡ (
      answer (all_admit texts ips governor regexes nets from_a 0 (limiter 3 (codes "b" ∷ []))),
      charged texts ips governor regexes nets from_a 0 (limiter 3 (codes "b" ∷ [])),
    )
check-answer_example =
    check-answer texts ips governor regexes nets from_a 0 (limiter 3 (codes "b" ∷ [])) refl

-- A task inserts its key, and finds room for it.
abbrev one_key : Shared texts 1
one_key = record { known = codes "a" ∷ []; inserted = []; refused = [] }

one_key-Reachable : Reachable texts 1 one_key
unfolding add
one_key-Reachable =
    steps (steps begins (inserts _ (codes "a"))) (stays _ [] [] (codes "a") refl refl)

quiet-len-le_example : texts.len (codes "a" ∷ []) ≤ 1
quiet-len-le_example = quiet-len-le texts 1 one_key-Reachable refl refl

abbrev defaults : Config nets
defaults = default_config nets (codes "corx/0")

abbrev no_file : String → Bool
no_file path = false

accepted : validate nets no_file defaults ≡ inr tt
unfolding validate validate_full validate_cors validate_target validate_auth validate_circuit
    validate_limits validate_rate_limit check_dimension validate_upstream validate_tls validate_ssrf
    error_if warn_if is_bound trim
accepted = refl

accepted-limits_example :
    (limiter : RateLimiter texts ips governor regexes nets) × ((from_config texts ips governor
          regexes nets defaults.rate_limit
        ≡ inr limiter)
      × ((limiter.enabled ≡ true)
          × ((limiter.max_keys ≡ defaults.rate_limit.max_keys)
              × (limits_something texts ips governor regexes nets limiter ≡ true))))
accepted-limits_example =
    accepted-limits texts ips governor regexes nets no_file defaults tt accepted refl refl

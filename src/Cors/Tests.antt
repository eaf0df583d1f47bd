-- ===== src/Cors/Tests.antt =====
-- The CORS layer at a concrete policy, request and upstream response.
use corx.Cors.{
  CorsPolicyKind, CorsConfig, CorsPolicy, compile_mode, from_config, encode_token_list,
  encode_max_age, resolve_allow_origin, resolve_mode, apply_to_response, build_preflight_response,
  configured_or_echo,
}
use corx.Cors.Layer.{allow_origin-refused}
use corx.Cors.Preflight.{at_most_one, build_preflight_response_lem}
use corx.Cors.Response.{stamped, overlay, values-apply_to_response}
use mathlib.Core.Option.{some-injective}
use corx.Http.Assoc.{assoc_http, get_all, as_visible, all_visible}
use corx.Prelude.{
  ◌≡◌, ◌≢◌, refl, true, false, some, none, List, [], ◌∷◌, String, Text, codes, contains, text_eq,
  to_string, join, head?,
}

abbrev cfg : CorsConfig
cfg = record {
  policy = CorsPolicyKind.explicit;
  origins = codes "https://a.test" ∷ [];
  allow_any_origin = false;
  allowed_methods = [];
  allowed_headers = [];
  exposed_headers = codes "x-id" ∷ [];
  max_age = 600000000000;
  allow_credentials = true;
  allow_private_network = false;
}

abbrev policy : CorsPolicy assoc_http
policy = from_config assoc_http cfg

abbrev friend : List (String × Text)
friend = ("origin", codes "https://a.test") ∷ []

abbrev stranger : List (String × Text)
stranger = ("origin", codes "https://evil.test") ∷ []

abbrev upstream : List (String × Text)
upstream =
    ("access-control-allow-origin", codes "*")
    ∷ ("vary", codes "accept")
    ∷ ("x-keep", codes "1")
    ∷ []

program : Unit {0}
unfolding from_config compile_mode encode_token_list encode_max_age resolve_allow_origin
    resolve_mode contains text_eq to_string join as_visible all_visible get_all
program = tt

friend-granted :
    resolve_allow_origin assoc_http policy (head? (get_all friend "origin"))
    ≡ some (codes "https://a.test")
unfolding program
friend-granted = refl

stranger-refused : resolve_allow_origin assoc_http policy (head? (get_all stranger "origin")) ≡ none
unfolding program
stranger-refused = refl

upstream-readable : (v : Text) → head? (get_all upstream "vary") ≡ some v → as_visible v ≢ none
unfolding program
upstream-readable v e = rw (← some-injective (codes "accept") v e) (λ h. cc)

build_preflight_response_lem_example :
    ((build_preflight_response assoc_http policy friend).0 ≡ 204)
    × (get_all (build_preflight_response assoc_http policy friend).1 "access-control-allow-origin"
        ≡ at_most_one (resolve_allow_origin assoc_http policy (head? (get_all friend "origin"))))
    × (get_all (build_preflight_response assoc_http policy friend).1 "access-control-allow-methods"
        ≡ at_most_one (
            configured_or_echo assoc_http policy.allowed_methods
              (head? (get_all friend "access-control-request-method"))))
    × (get_all (build_preflight_response assoc_http policy friend).1 "access-control-allow-headers"
        ≡ at_most_one (
            configured_or_echo assoc_http policy.allowed_headers
              (head? (get_all friend "access-control-request-headers"))))
    × (get_all (build_preflight_response assoc_http policy friend).1 "access-control-max-age"
        ≡ at_most_one policy.max_age_value)
build_preflight_response_lem_example = build_preflight_response_lem assoc_http policy friend

values-apply_to_response_example :
    get_all (apply_to_response assoc_http policy friend upstream) "vary"
    ≡ overlay assoc_http "access-control-expose-headers" policy.exposed_headers
        (stamped assoc_http policy
          (resolve_allow_origin assoc_http policy (head? (get_all friend "origin")))
          (get_all upstream)
          "vary")
        "vary"
values-apply_to_response_example = values-apply_to_response assoc_http policy friend upstream "vary"

allow_origin-refused_example :
    (get_all (apply_to_response assoc_http policy stranger upstream) "access-control-allow-origin"
      ≡ get_all upstream "access-control-allow-origin")
    × (get_all
          (apply_to_response assoc_http policy stranger upstream)
          "access-control-allow-credentials"
        ≡ get_all upstream "access-control-allow-credentials")
allow_origin-refused_example =
    allow_origin-refused assoc_http policy stranger upstream stranger-refused

-- ===== src/Cors.antt =====
-- crates/corx-core/src/proxy/cors.rs and config/cors.rs: the CORS headers of every response. An
-- `OriginSet` (util.rs) is a list of texts compared byte by byte; a duration is in nanoseconds.
pub mod Origin
pub mod Vary
pub mod Response
pub mod Layer
pub mod Preflight
mod Tests
use corx.Http.{Http}
use corx.Prelude.{
  ℕ, ◌/◌, ◌≡◌, Bool, true, false, ◌&&◌, ◌||◌, not, Option, none, some, List, [], ◌∷◌, ◌++◌, String,
  Text, codes, str_eq, any, is_empty, if◌then◌else◌, contains, join, to_string, split, trim,
  eq_ignore_ascii_case,
}

-- `CorsPolicyKind`
pub data CorsPolicyKind : Type 0 where
  wildcard reflect explicit : CorsPolicyKind

-- `CorsConfig`
pub record CorsConfig : Type 0 where
  pub policy : CorsPolicyKind
  pub origins : List Text
  pub allow_any_origin : Bool
  pub allowed_methods : List Text
  pub allowed_headers : List Text
  pub exposed_headers : List Text
  pub max_age : ℕ
  pub allow_credentials : Bool
  pub allow_private_network : Bool

-- `PolicyMode`
pub data PolicyMode : Type 0 where
  wildcard : PolicyMode
  reflect : Option (List Text) → PolicyMode
  explicit : List Text → PolicyMode

-- the `match` of `CorsPolicy::from_config`
unfoldable pub compile_mode : CorsConfig → CorsPolicyKind → PolicyMode
compile_mode cfg CorsPolicyKind.wildcard = PolicyMode.wildcard
compile_mode cfg CorsPolicyKind.reflect =
    if not (is_empty cfg.origins)
    then PolicyMode.reflect (some cfg.origins)
    else if cfg.allow_any_origin
    then PolicyMode.reflect none
    else PolicyMode.reflect (some [])
compile_mode cfg CorsPolicyKind.explicit = PolicyMode.explicit cfg.origins

-- `Duration::as_secs`
abbrev as_secs : ℕ → ℕ
as_secs d = d / 1000000000

-- `Option::is_some`
abbrev pub is_some {ℓ} : {A : Type ℓ} → Option A → Bool
is_some none = false
is_some (some a) = true

-- the test of `append_vary`: the token is listed already
unfoldable pub lists_token : Text → Text → Bool
lists_token value existing = any (λ s. eq_ignore_ascii_case (trim s) value) (split b',' existing)

module _ (http : Http) where
  open http use {
    HeaderValue, HeaderMap, to_str, from_str, from_static, get, insert, contains_key, empty,
  }

  -- `CorsPolicy`
  pub record CorsPolicy : Type 0 where
    pub mode : PolicyMode
    pub allowed_methods : Option HeaderValue
    pub allowed_headers : Option HeaderValue
    pub exposed_headers : Option HeaderValue
    pub max_age_value : Option HeaderValue
    pub allow_credentials : Bool
    pub allow_private_network : Bool

  unfoldable pub encode_token_list : List Text → Option HeaderValue
  encode_token_list [] = none
  encode_token_list (v ∷ vs) = from_str (join (codes ", ") (v ∷ vs))

  unfoldable pub encode_max_age : ℕ → Option HeaderValue
  encode_max_age duration = from_str (to_string (as_secs duration))

  unfoldable pub from_config : CorsConfig → CorsPolicy
  from_config cfg = record {
    mode = compile_mode cfg cfg.policy;
    allowed_methods = encode_token_list cfg.allowed_methods;
    allowed_headers = encode_token_list cfg.allowed_headers;
    exposed_headers = encode_token_list cfg.exposed_headers;
    max_age_value = encode_max_age cfg.max_age;
    allow_credentials = cfg.allow_credentials;
    allow_private_network = cfg.allow_private_network;
  }

  infixl 5 ◌>>=◌
  abbrev ◌>>=◌ {ℓ κ} : {A : Type ℓ} {B : Type κ} → Option A → (A → Option B) → Option B
  none >>= f = none
  some a >>= f = f a

  unfoldable pub resolve_mode : PolicyMode → Bool → Option HeaderValue → Option HeaderValue
  resolve_mode PolicyMode.wildcard allow_credentials request_origin =
      if allow_credentials
      then (do value ← request_origin; s ← to_str value; from_str s)
      else some (from_static (codes "*"))
  resolve_mode (PolicyMode.reflect (some set)) allow_credentials request_origin = do
    value ← request_origin
    origin ← to_str value
    if contains set origin then from_str origin else none
  resolve_mode (PolicyMode.reflect none) allow_credentials request_origin = do
    value ← request_origin
    origin ← to_str value
    from_str origin
  resolve_mode (PolicyMode.explicit set) allow_credentials request_origin = do
    value ← request_origin
    origin ← to_str value
    if contains set origin then from_str origin else none

  unfoldable pub resolve_allow_origin : CorsPolicy → Option HeaderValue → Option HeaderValue
  unfolding resolve_mode
  resolve_allow_origin policy request_origin =
      resolve_mode policy.mode policy.allow_credentials request_origin

  unfoldable pub append_vary : HeaderMap → Text → HeaderMap
  append_vary headers value = elim (get headers "vary") [
    | none ↦ insert headers "vary" (from_static value)
    | some existing ↦ elim (to_str existing) [
      | none ↦ headers
      | some s ↦
          if lists_token value s then headers else elim (from_str (s ++ (codes ", " ++ value))) [
            | none ↦ headers
            | some header_value ↦ insert headers "vary" header_value
          ]
    ]
  ]

  unfoldable pub apply_cors_base : CorsPolicy → HeaderMap → HeaderMap → HeaderMap
  apply_cors_base policy request_headers headers =
      elim (resolve_allow_origin policy (get request_headers "origin")) [
        | none ↦ append_vary headers (codes "origin")
        | some allow_origin ↦
            let headers1 = insert headers "access-control-allow-origin" allow_origin in
            let headers2 =
              if policy.allow_credentials
              then insert headers1 "access-control-allow-credentials" (from_static (codes "true"))
              else headers1 in
            append_vary headers2 (codes "origin")
      ]

  -- `if let Some(value) = value { headers.insert(name, value) }`
  abbrev pub insert_some : HeaderMap → String → Option HeaderValue → HeaderMap
  insert_some headers name none = headers
  insert_some headers name (some value) = insert headers name value

  -- `apply_to_response`, and `apply_to_error_response`, which calls it
  unfoldable pub apply_to_response : CorsPolicy → HeaderMap → HeaderMap → HeaderMap
  apply_to_response policy request_headers headers =
      insert_some (apply_cors_base policy request_headers headers) "access-control-expose-headers"
        policy.exposed_headers

  -- the configured list, or else an echo of the request's header; `HeaderValue::from_bytes` of the
  -- bytes of a header value gives that value again
  abbrev pub configured_or_echo : Option HeaderValue → Option HeaderValue → Option HeaderValue
  configured_or_echo (some value) requested = some value
  configured_or_echo none requested = requested

  -- `build_preflight_response`: the status and the headers of the response, which has no body
  unfoldable pub build_preflight_response : CorsPolicy → HeaderMap → ℕ × HeaderMap
  build_preflight_response policy request_headers =
      let headers1 = apply_cors_base policy request_headers empty in
      let headers2 = insert_some headers1 "access-control-allow-methods" (
        configured_or_echo policy.allowed_methods
          (get request_headers "access-control-request-method")) in
      let headers3 = insert_some headers2 "access-control-allow-headers" (
        configured_or_echo policy.allowed_headers
          (get request_headers "access-control-request-headers")) in
      let headers4 = insert_some headers3 "access-control-max-age" policy.max_age_value in
      let headers5 =
        if policy.allow_private_network
          && is_some (get request_headers "access-control-request-private-network")
        then insert headers4 "access-control-allow-private-network" (from_static (codes "true"))
        else headers4 in
      (
        204,
        append_vary (append_vary headers5 (codes "access-control-request-method"))
            (codes "access-control-request-headers"),
      )

  -- `is_preflight`
  unfoldable pub is_preflight : String → HeaderMap → Bool
  is_preflight method headers =
      str_eq method "OPTIONS"
      && contains_key headers "origin"
      && contains_key headers "access-control-request-method"

-- ===== src/Config/Validate/Credentials.antt =====
-- What an accepted configuration means for the CORS layer.
use corx.Config.Tree.{Config}
use corx.Config.Validate.{validate}
use corx.Config.Validate.Accepted.{validate-IsAcceptable_iff}
use corx.Cors.{
  CorsPolicyKind, CorsConfig, PolicyMode, compile_mode, from_config, resolve_allow_origin,
  apply_to_response,
}
use corx.Cors.Layer.{allow_origin-granted, allow_origin-refused}
use corx.Cors.Origin.{admits, is_wildcard, echo, resolve_allow_origin_lem}
use corx.Http.{Http}
use corx.Prelude.{
  ◌≡◌, refl, ◌⊎◌, [], ◌∷◌, Bool, true, false, inl, inr, Option, none, some, String, Text, contains,
  arith, Option-cases,
}
use corx.Ssrf.{IpNets}

-- A safe section with credentials compiles to a mode that only admits origins of its list.
listed-kind :
    (cors : CorsConfig) (kind : CorsPolicyKind)
    → (kind ≡ CorsPolicyKind.wildcard → cors.allow_credentials ≡ false)
    → (kind ≡ CorsPolicyKind.reflect
        → cors.allow_any_origin ≡ true
        → cors.allow_credentials ≡ false)
    → cors.allow_credentials ≡ true
    → (is_wildcard (compile_mode cors kind) ≡ false)
      × ((origin : Text)
          → admits (compile_mode cors kind) origin ≡ true
          → contains cors.origins origin ≡ true)
unfolding compile_mode admits contains
listed-kind cors CorsPolicyKind.wildcard hw hr creds = ground arith
listed-kind cors CorsPolicyKind.reflect hw hr creds = (ground arith, λ origin h. ground arith)
listed-kind cors CorsPolicyKind.explicit hw hr creds = (refl, λ origin h. h)

module _ (http : Http) (nets : IpNets) where
  open http use {HeaderValue, HeaderMap, to_str, get, values}

  echo-admits :
      (mode : PolicyMode) (request_origin : Option HeaderValue) (value : HeaderValue)
      → echo http mode request_origin ≡ some value
      → (origin : Text) × ((to_str value ≡ some origin) × (admits mode origin ≡ true))
  unfolding echo
  echo-admits mode none value h = cc
  echo-admits mode (some v) value h = elim (Option-cases (to_str v)) [
    | inl e ↦ cc
    | inr (s, e) ↦ (s, ground arith)
  ]

  resolved-listed :
      (is_file : String → Bool) (cfg : Config nets) (request_origin : Option HeaderValue)
      (value : HeaderValue)
      → validate nets is_file cfg ≡ inr tt
      → cfg.cors.allow_credentials ≡ true
      → resolve_allow_origin http (from_config http cfg.cors) request_origin ≡ some value
      → (origin : Text) × ((to_str value ≡ some origin) × (contains cfg.cors.origins origin ≡ true))
  unfolding from_config
  resolved-listed is_file cfg request_origin value accepted creds answer =
      let safe = ((validate-IsAcceptable_iff nets is_file cfg).0 accepted).cors in
      let (narrow, listed) = listed-kind cfg.cors cfg.cors.policy safe.0 safe.2 creds in
      let lem = resolve_allow_origin_lem http (from_config http cfg.cors) request_origin in
      let (origin, (text, admitted)) =
        echo-admits (compile_mode cfg.cors cfg.cors.policy) request_origin value (ground arith) in
      (origin, (text, listed origin admitted))

  -- The value spells one of the configured origins.
  abbrev pub IsListed : Config nets → HeaderValue → Type 0
  IsListed cfg value =
      (origin : Text) × ((to_str value ≡ some origin) × (contains cfg.cors.origins origin ≡ true))

  -- Under an accepted configuration with credentials, the CORS layer leaves a response with one
  -- allowed origin, which is spelled as in the configured list and never merely reflected; or it adds
  -- none, and the allowed origins and the credentials flag are those that the upstream sent.
  pub credentials-origin :
      (is_file : String → Bool) (cfg : Config nets) (rq m : HeaderMap)
      → validate nets is_file cfg ≡ inr tt
      → cfg.cors.allow_credentials ≡ true
      → (let answer = apply_to_response http (from_config http cfg.cors) rq m in
          ((value : HeaderValue) × ((values answer "access-control-allow-origin" ≡ value ∷ [])
              × IsListed cfg value))
          ⊎ ((values answer "access-control-allow-origin" ≡ values m "access-control-allow-origin")
              × (values answer "access-control-allow-credentials"
                  ≡ values m "access-control-allow-credentials")))
  credentials-origin is_file cfg rq m accepted creds =
      let policy = from_config http cfg.cors in
      elim (Option-cases (resolve_allow_origin http policy (get rq "origin"))) [
        | inl e ↦ inr (allow_origin-refused http policy rq m e)
        | inr (value, e) ↦ inl (
          value,
          (
            allow_origin-granted http policy rq m value e,
            resolved-listed is_file cfg (get rq "origin") value accepted creds e,
          ),
        )
      ]

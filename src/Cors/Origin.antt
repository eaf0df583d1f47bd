-- ===== src/Cors/Origin.antt =====
-- Which origins the policy admits, and the value that it answers with.
use corx.Cors.{
  CorsPolicyKind, CorsConfig, PolicyMode, CorsPolicy, compile_mode, resolve_mode,
  resolve_allow_origin,
}
use corx.Http.{Http}
use corx.Prelude.{
  ◌≡◌, refl, inl, inr, Bool, true, false, ◌&&◌, ◌||◌, not, Option, none, some, Text, codes,
  contains, arith, if◌then◌else◌, is_empty, Option-cases,
}

-- The origins that a mode admits.
unfoldable pub admits : PolicyMode → Text → Bool
admits PolicyMode.wildcard origin = true
admits (PolicyMode.reflect none) origin = true
admits (PolicyMode.reflect (some set)) origin = contains set origin
admits (PolicyMode.explicit set) origin = contains set origin

-- The origins that a configuration is meant to admit.
unfoldable pub config_admits : CorsConfig → CorsPolicyKind → Text → Bool
config_admits cfg CorsPolicyKind.wildcard origin = true
config_admits cfg CorsPolicyKind.reflect origin =
    contains cfg.origins origin || (is_empty cfg.origins && cfg.allow_any_origin)
config_admits cfg CorsPolicyKind.explicit origin = contains cfg.origins origin

abbrev pub is_wildcard : PolicyMode → Bool
is_wildcard PolicyMode.wildcard = true
is_wildcard _ = false

-- Compiling a configuration keeps what it admits: with no origins listed, `reflect` admits every
-- origin if `allow_any_origin` is set, and no origin otherwise.
pub admits-compile_mode :
    (cfg : CorsConfig) (kind : CorsPolicyKind) (origin : Text)
    → admits (compile_mode cfg kind) origin ≡ config_admits cfg kind origin
unfolding admits compile_mode config_admits contains
admits-compile_mode cfg CorsPolicyKind.wildcard origin = refl
admits-compile_mode cfg CorsPolicyKind.reflect origin = ground arith
admits-compile_mode cfg CorsPolicyKind.explicit origin = refl

module _ (http : Http) where
  open http use {HeaderValue, to_str, from_str, from_static, from_str-to_str}

  -- The request's own value, if it is visible text that the mode admits.
  unfoldable pub echo : PolicyMode → Option HeaderValue → Option HeaderValue
  echo mode none = none
  echo mode (some value) = elim (to_str value) [
    | none ↦ none
    | some origin ↦ if admits mode origin then some value else none
  ]

  -- The answer is "*" under `wildcard` without credentials. In every other case it is the request's
  -- own `Origin` value, if the mode admits it, and else there is none.
  pub resolve_allow_origin_lem :
      (policy : CorsPolicy http) (request_origin : Option HeaderValue)
      → resolve_allow_origin http policy request_origin ≡ (
          if is_wildcard policy.mode && not policy.allow_credentials
          then some (from_static (codes "*"))
          else echo policy.mode request_origin)
  unfolding resolve_allow_origin resolve_mode echo admits
  resolve_allow_origin_lem policy none = ground arith
  resolve_allow_origin_lem policy (some v) = elim (Option-cases (to_str v)) [
    | inl e ↦ ground arith
    | inr (s, e) ↦ ground (arith, from_str-to_str v s e)
  ]

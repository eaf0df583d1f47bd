-- ===== src/Server/Auth/Gate.antt =====
-- Which requests the bearer-token layer lets through.
use mathlib.Core.Path.{subst}
use mathlib.Core.Option.{some-injective}
use corx.Config.Security.{AuthMode, is_bearer}
use corx.Error.{ok}
use corx.Http.{Http}
use corx.Prelude.{
  ℕ, ◌≡◌, refl, ◌↔◌, Bool, true, false, ◌||◌, not, Option, none, some, List, [], ◌∷◌, String, Text,
  codes, str_eq, text_eq_iff, contains, All, arith, if◌then◌else◌, Option-cases, inl, inr,
  strip_prefix,
}
use corx.Server.Auth.{
  ct_eq, match_tokens, bearer_of, is_ops_path, authorization, verdict, check_bearer, auth_layer,
}
use corx.Server.Auth.ConstantTime.{IsBytes, ct_eq_iff}

strip_prefix-All {κ} :
    (P : ℕ → Type κ) (p s r : Text) → strip_prefix p s ≡ some r → All P s → All P r
unfolding strip_prefix
strip_prefix-All P [] s r e h = subst (All P) (some-injective s r e) h
strip_prefix-All P (c ∷ p) [] r e h = cc
strip_prefix-All P (c ∷ p) (d ∷ s) r e h = strip_prefix-All P p s r (ground arith) h.1

bearer_of-IsBytes : (v p : Text) → bearer_of v ≡ some p → IsBytes v → IsBytes p
unfolding bearer_of
bearer_of-IsBytes v p e h = elim (Option-cases (strip_prefix (codes "Bearer ") v)) [
  | inl missed ↦ strip_prefix-All _ (codes "bearer ") v p (ground arith) h
  | inr (r, found) ↦ strip_prefix-All _ (codes "Bearer ") v p (ground arith) h
]

match_tokens_lem :
    (matched : Bool) (presented : Text) (tokens : List Text)
    → IsBytes presented
    → All IsBytes tokens
    → match_tokens matched presented tokens ≡ (matched || contains tokens presented)
unfolding match_tokens contains
match_tokens_lem matched presented [] h a = ground arith
match_tokens_lem matched presented (token ∷ tokens) h a = ground (
  arith,
  match_tokens_lem (if ct_eq presented token then true else matched) presented tokens h a.1,
  ct_eq_iff presented token h a.0,
  text_eq_iff token presented,
)

-- The request presents one of the tokens, after "Bearer " or "bearer ".
unfoldable pub presents : List Text → Option Text → Bool
presents tokens none = false
presents tokens (some value) = elim (bearer_of value) [
  | none ↦ false
  | some presented ↦ contains tokens presented
]

verdict-presents_iff :
    (tokens : List Text) (found : Option Text)
    → All IsBytes tokens
    → ((value : Text) → found ≡ some value → IsBytes value)
    → (verdict tokens found ≡ ok tt) ↔ (presents tokens found ≡ true)
unfolding verdict presents bearer_of strip_prefix
verdict-presents_iff tokens none t b = (λ e. cc, λ e. cc)
verdict-presents_iff tokens (some v) t b = elim (Option-cases (bearer_of v)) [
  | inl e ↦ rw e (λ e. cc, λ e. cc)
  | inr (p, e) ↦
      rw (e, match_tokens_lem false p tokens (bearer_of-IsBytes v p e (b v refl)) t)
        (λ h. ground arith, λ h. ground arith)
]

module _ (http : Http) where
  open http use {HeaderMap}

  unfoldable pub passes : AuthMode → List Text → Text → String → Text → HeaderMap → Bool
  passes mode tokens metrics method path headers =
      str_eq method "OPTIONS"
      || (is_ops_path path metrics
          || (not (is_bearer mode) || presents tokens (authorization http headers)))

  -- With bearer tokens a request passes exactly when its method is OPTIONS, its path is one of the
  -- operational endpoints, or it presents a configured token; without them every request passes.
  -- Tokens and the header's text are byte strings.
  pub auth_layer-passes_iff :
      (mode : AuthMode) (tokens : List Text) (metrics : Text) (method : String) (path : Text)
      (headers : HeaderMap)
      → All IsBytes tokens
      → ((value : Text) → authorization http headers ≡ some value → IsBytes value)
      → (auth_layer http mode tokens metrics method path headers ≡ ok tt)
        ↔ (passes mode tokens metrics method path headers ≡ true)
  unfolding auth_layer passes check_bearer
  auth_layer-passes_iff mode tokens metrics method path headers t b =
      let (to, from) = verdict-presents_iff tokens (authorization http headers) t b in
      (λ e. grind arith, λ e. grind arith)

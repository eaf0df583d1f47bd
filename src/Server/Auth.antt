-- ===== src/Server/Auth.antt =====
-- crates/corx-server/src/middleware/auth.rs: bearer tokens. Tokens and header texts are lists of
-- bytes; the path and the method of a request are texts.
pub mod ConstantTime
pub mod Gate
use Prim.Native.Nat.{bit_xor, bit_or}
use corx.Config.Security.{AuthMode, is_bearer}
use corx.Error.{ProxyError, Result, ok, err}
use corx.Http.{Http}
use corx.Prelude.{
  ℕ, Bool, true, false, ◌&&◌, ◌||◌, not, Option, none, some, List, [], ◌∷◌, String, Text, codes,
  text_eq, str_eq, ◌==◌, if◌then◌else◌, length, strip_prefix, is_empty,
}

-- the loop of `ct_eq`, over the bytes that `zip` pairs up
unfoldable pub diff_bits : ℕ → Text → Text → ℕ
diff_bits diff [] b = diff
diff_bits diff (x ∷ a) [] = diff
diff_bits diff (x ∷ a) (y ∷ b) = diff_bits (bit_or diff (bit_xor x y)) a b

unfoldable pub ct_eq : Text → Text → Bool
ct_eq a b = if not (length a == length b) then false else diff_bits 0 a b == 0

-- the loop over the tokens, which never stops early
unfoldable pub match_tokens : Bool → Text → List Text → Bool
match_tokens matched presented [] = matched
match_tokens matched presented (token ∷ tokens) =
    match_tokens (if ct_eq presented token then true else matched) presented tokens

-- `strip_prefix("Bearer ").or_else(|| strip_prefix("bearer "))`
unfoldable pub bearer_of : Text → Option Text
bearer_of value = elim (strip_prefix (codes "Bearer ") value) [
  | some presented ↦ some presented
  | none ↦ strip_prefix (codes "bearer ") value
]

-- `is_ops_path`
unfoldable pub is_ops_path : Text → Text → Bool
is_ops_path path metrics =
    text_eq path (codes "/")
    || text_eq path (codes "/livez")
    || text_eq path (codes "/readyz")
    || text_eq path (codes "/healthz")
    || text_eq path (codes "/iscorsneeded")
    || (not (is_empty metrics) && text_eq path metrics)

-- `check_bearer` from the text of the `Authorization` header on
unfoldable pub verdict : List Text → Option Text → Result (Unit {0})
verdict tokens none = err (ProxyError.unauthorized (codes "missing Authorization header"))
verdict tokens (some value) = elim (bearer_of value) [
  | none ↦ err (ProxyError.unauthorized (codes "expected Bearer scheme"))
  | some presented ↦
      if match_tokens false presented tokens
      then ok tt
      else err (ProxyError.unauthorized (codes "invalid bearer token"))
]

module _ (http : Http) where
  open http use {HeaderMap, get, to_str}

  -- `headers.get(AUTHORIZATION).and_then(|v| v.to_str().ok())`
  unfoldable pub authorization : HeaderMap → Option Text
  authorization headers = elim (get headers "authorization") [ none ↦ none | some v ↦ to_str v ]

  unfoldable pub check_bearer : HeaderMap → List Text → Result (Unit {0})
  check_bearer headers tokens = verdict tokens (authorization headers)

  -- `auth_layer`: `ok` passes the request on to the next layer
  unfoldable pub auth_layer :
      AuthMode → List Text → Text → String → Text → HeaderMap → Result (Unit {0})
  auth_layer mode tokens metrics method path headers =
      if str_eq method "OPTIONS" || is_ops_path path metrics
      then ok tt
      else if not (is_bearer mode)
      then ok tt
      else check_bearer headers tokens

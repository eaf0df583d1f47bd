-- ===== src/Http.antt =====
-- Header maps and header values of the crate `http`, which every component reads and writes. The
-- crate is not part of the repository: its operations and their documented behaviour are a
-- parameter. A header name is the lower-case text of its `HeaderName`. What a map holds is seen
-- through `values`, all values of a name in order (`get_all`); `get` gives the first of them.
pub mod Assoc
use corx.Prelude.{
  ℕ, ◌≤◌, ◌<◌, ◌≡◌, Bool, true, All, not, Option, none, some, List, [], ◌∷◌, String, Text, str_eq,
  if◌then◌else◌, head?, is_empty,
}

pub record Http : Type 1 where
  pub HeaderValue : Type 0
  -- `HeaderValue::to_str` and `HeaderValue::from_str` fail on bytes that are not visible ASCII
  pub to_str : HeaderValue → Option Text
  pub from_str : Text → Option HeaderValue
  -- `HeaderValue::from_static`, which panics where `from_str` fails
  pub from_static : Text → HeaderValue
  -- `str::parse::<HeaderName>`
  pub parse_name : Text → Option String
  pub HeaderMap : Type 0
  pub empty : HeaderMap
  pub values : HeaderMap → String → List HeaderValue
  pub get : HeaderMap → String → Option HeaderValue
  pub contains_key : HeaderMap → String → Bool
  pub insert : HeaderMap → String → HeaderValue → HeaderMap
  pub remove : HeaderMap → String → HeaderMap
  pub to_str-from_str : (t : Text) (v : HeaderValue) → from_str t ≡ some v → to_str v ≡ some t
  pub from_str-to_str : (v : HeaderValue) (t : Text) → to_str v ≡ some t → from_str t ≡ some v
  pub from_static-eq : (t : Text) (v : HeaderValue) → from_str t ≡ some v → from_static t ≡ v
  -- the bytes that `from_str` and `to_str` take: the printable ASCII characters at least
  pub is_visible : ℕ → Bool
  pub is_visible_of_printable : (c : ℕ) → 32 ≤ c → c < 127 → is_visible c ≡ true
  pub from_str_total :
      (t : Text) → All (λ c. is_visible c ≡ true) t → (v : HeaderValue) × (from_str t ≡ some v)
  pub to_str-visible :
      (v : HeaderValue) (t : Text) → to_str v ≡ some t → All (λ c. is_visible c ≡ true) t
  pub values-empty : (n : String) → values empty n ≡ []
  pub get-values : (m : HeaderMap) (n : String) → get m n ≡ head? (values m n)
  pub contains_key-values :
      (m : HeaderMap) (n : String) → contains_key m n ≡ not (is_empty (values m n))
  -- `insert` replaces every value of the name
  pub values-insert :
      (m : HeaderMap) (n : String) (v : HeaderValue) (k : String)
      → values (insert m n v) k ≡ (if str_eq n k then v ∷ [] else values m k)
  pub values-remove :
      (m : HeaderMap) (n k : String)
      → values (remove m n) k ≡ (if str_eq n k then [] else values m k)

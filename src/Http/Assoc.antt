-- ===== src/Http/Assoc.antt =====
-- The parameter `Http` by association lists and plain texts: its laws can be met.
use corx.Http.{Http}
use corx.Prelude.{
  ℕ, ◌≤◌, ◌<◌, ◌≡◌, refl, Bool, true, ◌&&◌, ◌||◌, not, Option, none, some, List, [], ◌∷◌, String,
  Text, text_eq, codes, str_eq, eq_iff, arith, leb, ltb, ◌==◌, if◌then◌else◌, All, head?, is_empty,
  Bool-cases, inl, inr, to_ascii_lowercase,
}

abbrev pub visible : ℕ → Bool
visible c = (leb 32 c && ltb c 127) || c == 9

unfoldable pub all_visible : Text → Bool
all_visible [] = true
all_visible (c ∷ t) = visible c && all_visible t

unfoldable pub as_visible : Text → Option Text
unfolding all_visible
as_visible t = if all_visible t then some t else none

pub All-visible : (t : Text) → all_visible t ≡ true → All (λ c. visible c ≡ true) t
unfolding all_visible
All-visible [] h = tt
All-visible (c ∷ t) h = (ground arith, All-visible t (ground arith))

visible-All : (t : Text) → All (λ c. visible c ≡ true) t → all_visible t ≡ true
unfolding all_visible
visible-All [] h = refl
visible-All (c ∷ t) h = ground (arith, visible-All t h.1)

pub as_visible_total :
    (t : Text) → All (λ c. visible c ≡ true) t → (v : Text) × (as_visible t ≡ some v)
unfolding as_visible
as_visible_total t h = (t, rw (visible-All t h))

pub as_visible_id : (t v : Text) → as_visible t ≡ some v → as_visible v ≡ some t
unfolding as_visible
as_visible_id t v h = ground arith

pub as_visible_same : (t v : Text) → as_visible t ≡ some v → t ≡ v
unfolding as_visible
as_visible_same t v h = ground arith

pub as_visible-All : (v t : Text) → as_visible v ≡ some t → All (λ c. visible c ≡ true) t
unfolding as_visible
as_visible-All v t h = elim (Bool-cases (all_visible v)) [
  | inl e ↦ rw (← as_visible_same v t h) (All-visible v e)
  | inr e ↦ absurd (ground arith)
]

pub printable : (c : ℕ) → 32 ≤ c → c < 127 → visible c ≡ true
printable c a b = ground arith

unfoldable pub get_all : List (String × Text) → String → List Text
get_all [] n = []
get_all ((k, v) ∷ m) n = let rest = get_all m n in if str_eq k n then v ∷ rest else rest

unfoldable pub remove_name : List (String × Text) → String → List (String × Text)
remove_name [] n = []
remove_name ((k, v) ∷ m) n =
    let rest = remove_name m n in if str_eq k n then rest else (k, v) ∷ rest

pub get_all-remove_name :
    (m : List (String × Text)) (n k : String)
    → get_all (remove_name m n) k ≡ (if str_eq n k then [] else get_all m k)
unfolding get_all remove_name
get_all-remove_name [] n k = ground arith
get_all-remove_name ((j, v) ∷ m) n k =
    ground (arith, get_all-remove_name m n k, eq_iff j n, eq_iff j k, eq_iff n k)

pub get_all-insert :
    (m : List (String × Text)) (n : String) (v : Text) (k : String)
    → get_all ((n, v) ∷ remove_name m n) k ≡ (if str_eq n k then v ∷ [] else get_all m k)
unfolding get_all
get_all-insert m n v k = ground (arith, get_all-remove_name m n k)

pub get_all-nil : (n : String) → get_all [] n ≡ []
unfolding get_all
get_all-nil n = refl

-- A parser of header names that knows a few names.
unfoldable pub known_name : List String → Text → Option String
known_name [] t = none
known_name (n ∷ ns) t =
    let later = known_name ns t in
    if text_eq (codes n) (to_ascii_lowercase t) then some n else later

unfoldable pub name_of : Text → Option String
unfolding known_name
name_of = known_name ("close" ∷ "keep-alive" ∷ "x-custom" ∷ "x-keep" ∷ "cookie" ∷ [])

abbrev pub assoc_http : Http
assoc_http = record {
  HeaderValue = Text;
  to_str = as_visible;
  from_str = as_visible;
  from_static = λ t. t;
  parse_name = name_of;
  HeaderMap = List (String × Text);
  empty = [];
  values = get_all;
  get = λ m n. head? (get_all m n);
  contains_key = λ m n. not (is_empty (get_all m n));
  insert = λ m n v. (n, v) ∷ remove_name m n;
  remove = remove_name;
  to_str-from_str = as_visible_id;
  from_str-to_str = as_visible_id;
  from_static-eq = as_visible_same;
  is_visible = visible;
  is_visible_of_printable = printable;
  from_str_total = as_visible_total;
  to_str-visible = as_visible-All;
  values-empty = get_all-nil;
  get-values = λ m n. refl;
  contains_key-values = λ m n. refl;
  values-insert = get_all-insert;
  values-remove = get_all-remove_name;
}

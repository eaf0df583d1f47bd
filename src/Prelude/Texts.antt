-- ===== src/Prelude/Texts.antt =====
-- Texts as lists of bytes, with what the source uses of `str`: equality, ASCII case, `trim`, `split`,
-- `strip_prefix`, `ends_with` and `join`.
use Prim.Native.Nat.{ℕ, zero, suc, ◌+◌, ◌-◌, ◌/◌, ◌%◌}
use Prim.Native.Char.{code}
use Prim.Native.String.{String}
use mathlib.Core.Path.{◌≡◌, refl, ap₂, ◌∙◌}
use mathlib.Core.Logic.{◌↔◌}
use mathlib.Core.Bool.{Bool, true, false, ◌&&◌, ◌||◌}
use mathlib.Core.Option.{Option, none, some}
use mathlib.Core.List.{List, [], ◌∷◌, ◌++◌, reverse}
use native.Mathlib.Omega.{arith}
use corx.Prelude.Tests.{leb, ◌==◌, if◌then◌else◌}

abbrev pub Text : Type 0
Text = List ℕ

-- The bytes of an ASCII literal. `String` has its own `[]` and `∷`.
abbrev pub codes : String → Text
codes String.[] = []
codes (String.◌∷◌ c s) = code c ∷ codes s

unfoldable pub text_eq : Text → Text → Bool
text_eq [] [] = true
text_eq [] (d ∷ t) = false
text_eq (c ∷ s) [] = false
text_eq (c ∷ s) (d ∷ t) = c == d && text_eq s t

text_eq_sound : (s t : Text) → text_eq s t ≡ true → s ≡ t
unfolding text_eq
text_eq_sound [] [] h = refl
text_eq_sound [] (d ∷ t) h = cc
text_eq_sound (c ∷ s) [] h = cc
text_eq_sound (c ∷ s) (d ∷ t) h = ground (arith, text_eq_sound s t)

pub text_eq_refl : (s : Text) → text_eq s s ≡ true
unfolding text_eq
text_eq_refl [] = refl
text_eq_refl (c ∷ s) = ground (arith, text_eq_refl s)

text_eq_complete : (s t : Text) → s ≡ t → text_eq s t ≡ true
unfolding text_eq
text_eq_complete [] [] h = refl
text_eq_complete [] (d ∷ t) h = cc
text_eq_complete (c ∷ s) [] h = cc
text_eq_complete (c ∷ s) (d ∷ t) h = ground (arith, text_eq_complete s t)

-- The test decides equality.
pub text_eq_iff : (s t : Text) → (text_eq s t ≡ true) ↔ (s ≡ t)
text_eq_iff s t = (text_eq_sound s t, text_eq_complete s t)

-- `u8::to_ascii_lowercase`
unfoldable pub lower : ℕ → ℕ
lower c = if leb b'A' c && leb c b'Z' then c + 32 else c

-- `str::to_ascii_lowercase`
unfoldable pub to_ascii_lowercase : Text → Text
unfolding lower
to_ascii_lowercase [] = []
to_ascii_lowercase (c ∷ s) = lower c ∷ to_ascii_lowercase s

-- `str::to_ascii_uppercase`
unfoldable pub upper : ℕ → ℕ
upper c = if leb b'a' c && leb c b'z' then c - 32 else c

unfoldable pub to_ascii_uppercase : Text → Text
unfolding upper
to_ascii_uppercase [] = []
to_ascii_uppercase (c ∷ s) = upper c ∷ to_ascii_uppercase s

lower_idem : (c : ℕ) → lower (lower c) ≡ lower c
unfolding lower
lower_idem c = ground arith

pub to_ascii_lowercase_idem :
    (s : Text) → to_ascii_lowercase (to_ascii_lowercase s) ≡ to_ascii_lowercase s
unfolding to_ascii_lowercase
to_ascii_lowercase_idem [] = refl
to_ascii_lowercase_idem (c ∷ s) = ap₂ (λ d t. d ∷ t) (lower_idem c) (to_ascii_lowercase_idem s)

-- `str::eq_ignore_ascii_case`
unfoldable pub eq_ignore_ascii_case : Text → Text → Bool
unfolding text_eq to_ascii_lowercase
eq_ignore_ascii_case s t = text_eq (to_ascii_lowercase s) (to_ascii_lowercase t)

pub eq_ignore_ascii_case_refl : (s : Text) → eq_ignore_ascii_case s s ≡ true
unfolding eq_ignore_ascii_case
eq_ignore_ascii_case_refl s = text_eq_refl (to_ascii_lowercase s)

pub eq_ignore_ascii_case_trans :
    (s t u : Text)
    → eq_ignore_ascii_case s t ≡ true
    → eq_ignore_ascii_case t u ≡ true
    → eq_ignore_ascii_case s u ≡ true
unfolding eq_ignore_ascii_case
eq_ignore_ascii_case_trans s t u a b =
    let st = (text_eq_iff (to_ascii_lowercase s) (to_ascii_lowercase t)).0 a in
    let tu = (text_eq_iff (to_ascii_lowercase t) (to_ascii_lowercase u)).0 b in
    (text_eq_iff (to_ascii_lowercase s) (to_ascii_lowercase u)).1 (st ∙ tu)

-- ASCII white space: tab, line feed, vertical tab, form feed, carriage return and space.
unfoldable pub is_space : ℕ → Bool
is_space c = (leb 9 c && leb c 13) || c == 32

-- White space of two bytes in UTF-8: U+0085 and U+00A0.
abbrev pub is_space_2 : ℕ → ℕ → Bool
is_space_2 c d = c == 194 && (d == 133 || d == 160)

-- White space of three bytes in UTF-8: U+1680, U+2000 to U+200A, U+2028, U+2029, U+202F, U+205F and
-- U+3000.
abbrev pub is_space_3 : ℕ → ℕ → ℕ → Bool
is_space_3 c d e =
    (c == 225 && d == 154 && e == 128)
    || (c == 226
        && ((d == 128 && ((leb 128 e && leb e 138) || e == 168 || e == 169 || e == 175))
            || (d == 129 && e == 159)))
    || (c == 227 && d == 128 && e == 128)

-- how many bytes the white space at the start of a text has, and of a text read backwards
unfoldable pub leading_space : Text → ℕ
unfolding is_space
leading_space [] = 0
leading_space (c ∷ []) = if is_space c then 1 else 0
leading_space (c ∷ d ∷ []) = if is_space c then 1 else if is_space_2 c d then 2 else 0
leading_space (c ∷ d ∷ e ∷ s) =
    if is_space c then 1 else if is_space_2 c d then 2 else if is_space_3 c d e then 3 else 0

unfoldable pub trailing_space : Text → ℕ
unfolding is_space
trailing_space [] = 0
trailing_space (c ∷ []) = if is_space c then 1 else 0
trailing_space (c ∷ d ∷ []) = if is_space c then 1 else if is_space_2 d c then 2 else 0
trailing_space (c ∷ d ∷ e ∷ s) =
    if is_space c then 1 else if is_space_2 d c then 2 else if is_space_3 e d c then 3 else 0

-- drops white space while it comes; `skip` bytes of one character are still to be dropped
unfoldable pub drop_space : (Text → ℕ) → ℕ → Text → Text
drop_space space skip [] = []
drop_space space (suc skip) (c ∷ s) = drop_space space skip s
drop_space space zero (c ∷ s) =
    let width = space (c ∷ s) in
    let rest = drop_space space (width - 1) s in if width == 0 then c ∷ s else rest

-- `str::trim`, over the white space of Unicode in UTF-8
unfoldable pub trim : Text → Text
unfolding leading_space trailing_space drop_space
trim s = reverse (drop_space trailing_space 0 (reverse (drop_space leading_space 0 s)))

pub cons_first : ℕ → List Text → List Text
cons_first c [] = (c ∷ []) ∷ []
cons_first c (part ∷ parts) = (c ∷ part) ∷ parts

-- `str::split` at one byte
unfoldable pub split : ℕ → Text → List Text
unfolding cons_first
split sep [] = [] ∷ []
split sep (c ∷ s) = if c == sep then [] ∷ split sep s else cons_first c (split sep s)

-- `str::strip_prefix`
unfoldable pub strip_prefix : Text → Text → Option Text
strip_prefix [] s = some s
strip_prefix (c ∷ p) [] = none
strip_prefix (c ∷ p) (d ∷ s) = let rest = strip_prefix p s in if c == d then rest else none

abbrev is_some : Option Text → Bool
is_some none = false
is_some (some s) = true

-- `str::starts_with`
unfoldable pub starts_with : Text → Text → Bool
unfolding strip_prefix
starts_with s p = is_some (strip_prefix p s)

-- `str::ends_with`: some suffix of the text is the given one
unfoldable pub ends_with : Text → Text → Bool
unfolding text_eq
ends_with [] p = text_eq [] p
ends_with (c ∷ s) p = text_eq (c ∷ s) p || ends_with s p

-- `[String]::join`
unfoldable pub join : Text → List Text → Text
join sep [] = []
join sep (s ∷ []) = s
join sep (s ∷ t ∷ ts) = s ++ (sep ++ join sep (t ∷ ts))

to_string_from : ℕ → ℕ → Text
to_string_from zero n = []
to_string_from (suc fuel) n =
    let shorter = to_string_from fuel (n / 10) in
    if leb 10 n then shorter ++ (n % 10 + b'0') ∷ [] else (n + b'0') ∷ []

-- `u64::to_string`; a number has fewer digits than its value plus one
unfoldable pub to_string : ℕ → Text
unfolding to_string_from
to_string n = to_string_from (suc n) n

-- membership in a `HashSet<String>`
unfoldable pub contains : List Text → Text → Bool
contains [] s = false
contains (t ∷ ts) s = text_eq t s || contains ts s

-- U+00A0 and U+3000 around a letter are trimmed, U+200B is not.
trimmed : trim (194 ∷ 160 ∷ 32 ∷ b'a' ∷ 227 ∷ 128 ∷ 128 ∷ []) ≡ codes "a"
unfolding trim
trimmed = refl

kept : trim (226 ∷ 128 ∷ 139 ∷ []) ≡ 226 ∷ 128 ∷ 139 ∷ []
unfolding trim
kept = refl

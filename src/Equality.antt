-- ===== src/Equality.antt =====
-- The equality of `#[derive(PartialEq)]`: it compares the fields one by one.
use corx.Prelude.{
  ℕ, ◌≡◌, ◌↔◌, refl, ap, sym, ◌∙◌, Bool, true, false, ◌&&◌, Option, none, some, List, [], ◌∷◌,
  String, Text, text_eq, text_eq_iff, str_eq, eq_iff, ◌==◌, arith,
}

pub record Equal (A : Type 0) : Type 0 where
  pub eq : A → A → Bool
  pub eq_iff : (a b : A) → (eq a b ≡ true) ↔ (a ≡ b)

pub nat_iff : (a b : ℕ) → ((a == b) ≡ true) ↔ (a ≡ b)
nat_iff a b = (λ h. ground arith, λ h. ground arith)

abbrev pub nat_equal : Equal ℕ
nat_equal = record { eq = λ a b. a == b; eq_iff = nat_iff }

abbrev pub text_equal : Equal Text
text_equal = record { eq = text_eq; eq_iff = text_eq_iff }

abbrev pub string_equal : Equal String
string_equal = record { eq = str_eq; eq_iff = eq_iff }

abbrev pub bool_eq : Bool → Bool → Bool
bool_eq true b = b
bool_eq false true = false
bool_eq false false = true

pub bool_iff : (a b : Bool) → (bool_eq a b ≡ true) ↔ (a ≡ b)
bool_iff a b = ground arith

abbrev pub bool_equal : Equal Bool
bool_equal = record { eq = bool_eq; eq_iff = bool_iff }

-- Two structs are equal when the tuples of their fields are.
pub via_iff :
    {A B : Type 0} (fields : A → B) (build : B → A)
    → ((a : A) → build (fields a) ≡ a)
    → (e : Equal B) (a b : A) → (e.eq (fields a) (fields b) ≡ true) ↔ (a ≡ b)
via_iff fields build inverse e a b = (
  λ h. sym (inverse a) ∙ ap build ((e.eq_iff (fields a) (fields b)).0 h) ∙ inverse b,
  λ h. (e.eq_iff (fields a) (fields b)).1 (ap fields h),
)

abbrev pub via :
    {A B : Type 0} (fields : A → B) (build : B → A)
    → ((a : A) → build (fields a) ≡ a)
    → Equal B
    → Equal A
via fields build inverse e = record {
  eq = λ a b. e.eq (fields a) (fields b);
  eq_iff = via_iff fields build inverse e;
}

module _ {A B : Type 0} (ea : Equal A) (eb : Equal B) where
  abbrev pub pair_eq : A × B → A × B → Bool
  pair_eq p q = ea.eq p.0 q.0 && eb.eq p.1 q.1

  pub pair_iff : (p q : A × B) → (pair_eq p q ≡ true) ↔ (p ≡ q)
  pair_iff (a, b) (c, d) =
      let (to, from) = ea.eq_iff a c in let (to', from') = eb.eq_iff b d in ground arith

  abbrev pub pair_equal : Equal (A × B)
  pair_equal = record { eq = pair_eq; eq_iff = pair_iff }

module _ {A : Type 0} (e : Equal A) where
  abbrev pub list_eq : List A → List A → Bool
  list_eq [] [] = true
  list_eq [] (y ∷ ys) = false
  list_eq (x ∷ xs) [] = false
  list_eq (x ∷ xs) (y ∷ ys) = e.eq x y && list_eq xs ys

  pub list_iff : (xs ys : List A) → (list_eq xs ys ≡ true) ↔ (xs ≡ ys)
  list_iff [] [] = (λ h. refl, λ h. refl)
  list_iff [] (y ∷ ys) = (λ h. cc, λ h. cc)
  list_iff (x ∷ xs) [] = (λ h. cc, λ h. cc)
  list_iff (x ∷ xs) (y ∷ ys) =
      let (to, from) = e.eq_iff x y in let (to', from') = list_iff xs ys in ground arith

  abbrev pub list_equal : Equal (List A)
  list_equal = record { eq = list_eq; eq_iff = list_iff }

  abbrev pub option_eq : Option A → Option A → Bool
  option_eq none none = true
  option_eq none (some b) = false
  option_eq (some a) none = false
  option_eq (some a) (some b) = e.eq a b

  pub option_iff : (a b : Option A) → (option_eq a b ≡ true) ↔ (a ≡ b)
  option_iff none none = (λ h. refl, λ h. refl)
  option_iff none (some b) = (λ h. cc, λ h. cc)
  option_iff (some a) none = (λ h. cc, λ h. cc)
  option_iff (some a) (some b) = let (to, from) = e.eq_iff a b in ground arith

  abbrev pub option_equal : Equal (Option A)
  option_equal = record { eq = option_eq; eq_iff = option_iff }

-- ===== src/Cors/Vary.antt =====
-- `append_vary`: the token is listed afterwards, and a second call changes nothing.
use mathlib.Core.Bool.{or-true}
use corx.Cors.{lists_token, append_vary}
use corx.Http.{Http}
use corx.Prelude.{
  ◌≡◌, ◌≢◌, refl, ◌⊎◌, true, none, some, List, [], ◌∷◌, ◌++◌, String, Text, codes, str_eq, eq_iff,
  arith, if◌then◌else◌, Option-cases, Bool-cases, inl, inr, head?, All, All-append, split-append,
  any-append,
}

values-cases {ℓ} :
    {A : Type ℓ} (xs : List A) → (xs ≡ []) ⊎ ((x : A) × (rest : List A) × (xs ≡ x ∷ rest))
values-cases [] = inl refl
values-cases (x ∷ rest) = inr (x, rest, refl)

-- Adding a token after a comma and a space lists it.
pub lists_token-append :
    (value s : Text)
    → lists_token value (codes " " ++ value) ≡ true
    → lists_token value (s ++ (codes ", " ++ value)) ≡ true
unfolding lists_token
lists_token-append value s h =
    rw (split-append b',' s (codes " " ++ value), any-append, h) (or-true _)

module _ (http : Http) where
  open http use {
    HeaderValue, HeaderMap, values, get, to_str, from_str, from_static, from_static-eq, is_visible,
    is_visible_of_printable, from_str_total, to_str-visible, to_str-from_str, get-values,
    values-insert,
  }

  -- What `append_vary` makes of the values of `Vary`.
  unfoldable pub vary_values : Text → List HeaderValue → List HeaderValue
  vary_values value [] = from_static value ∷ []
  vary_values value (existing ∷ more) = elim (to_str existing) [
    | none ↦ existing ∷ more
    | some s ↦
        if lists_token value s
        then existing ∷ more
        else elim (from_str (s ++ (codes ", " ++ value))) [
          | none ↦ existing ∷ more
          | some header_value ↦ header_value ∷ []
        ]
  ]

  -- `Vary` alone changes, and its new values depend on its old values only.
  pub values-append_vary :
      (m : HeaderMap) (value : Text) (k : String)
      → values (append_vary http m value) k
        ≡ (if str_eq "vary" k then vary_values value (values m "vary") else values m k)
  unfolding append_vary vary_values
  values-append_vary m value k = go (values m "vary") refl
    where
      go :
          (vs : List HeaderValue)
          → values m "vary" ≡ vs
          → values (append_vary http m value) k
            ≡ (if str_eq "vary" k then vary_values value (values m "vary") else values m k)
      go [] e = ground (arith, get-values m "vary", values-insert m "vary" (from_static value) k)
      go (v ∷ vs) e = elim (Option-cases (to_str v)) [
        | inl hidden ↦ ground (arith, get-values m "vary", eq_iff "vary" k)
        | inr (s, seen) ↦ elim (Bool-cases (lists_token value s)) [
          | inl listed ↦ ground (arith, get-values m "vary", eq_iff "vary" k)
          | inr absent ↦ elim (Option-cases (from_str (s ++ (codes ", " ++ value)))) [
            | inl failed ↦ ground (arith, get-values m "vary", eq_iff "vary" k)
            | inr (w, made) ↦
                ground (arith, get-values m "vary", values-insert m "vary" w k, eq_iff "vary" k)
          ]
        ]
      ]

  module _ (value : Text) (visible : All (λ c. is_visible c ≡ true) value)
      (single : lists_token value value ≡ true)
      (after_space : lists_token value (codes " " ++ value) ≡ true) where
    -- the value that a map without `Vary` gets is one that lists the token
    fresh_lists : to_str (from_static value) ≡ some value
    fresh_lists =
        let (v, made) = from_str_total value visible in
        rw (from_static-eq value v made) (to_str-from_str value v made)

    joined :
        (v : HeaderValue) (s : Text)
        → to_str v ≡ some s
        → All (λ c. is_visible c ≡ true) (s ++ (codes ", " ++ value))
    joined v s e = All-append _ s (codes ", " ++ value) (to_str-visible v s e) (
      is_visible_of_printable b',' (omega arith) (omega arith),
      (is_visible_of_printable b' ' (omega arith) (omega arith), visible),
    )

    pub vary_values_idem :
        (vs : List HeaderValue) → vary_values value (vary_values value vs) ≡ vary_values value vs
    unfolding vary_values
    vary_values_idem [] = ground (arith, fresh_lists)
    vary_values_idem (v ∷ vs) = elim (Option-cases (to_str v)) [
      | inl e ↦ ground arith
      | inr (s, e) ↦ elim (Bool-cases (lists_token value s)) [
        | inl l ↦ ground arith
        | inr l ↦ elim (Option-cases (from_str (s ++ (codes ", " ++ value)))) [
          | inl f ↦ ground arith
          | inr (w, f) ↦ ground (
            arith,
            to_str-from_str (s ++ (codes ", " ++ value)) w f,
            lists_token-append value s after_space,
          )
        ]
      ]
    ]

    -- Unless the first value is unreadable, the values are led by one that lists the token.
    pub vary_values-lists :
        (vs : List HeaderValue)
        → ((v : HeaderValue) → head? vs ≡ some v → to_str v ≢ none)
        → (w : HeaderValue) × (s : Text) × (head? (vary_values value vs) ≡ some w)
          × (to_str w ≡ some s)
          × (lists_token value s ≡ true)
    unfolding vary_values
    vary_values-lists [] readable = (from_static value, value, refl, fresh_lists, single)
    vary_values-lists (v ∷ vs) readable = elim (Option-cases (to_str v)) [
      | inl e ↦ absurd (readable v refl e)
      | inr (s, e) ↦ elim (Bool-cases (lists_token value s)) [
        | inl l ↦ (v, s, ground arith, e, l)
        | inr l ↦
            let (w, f) = from_str_total (s ++ (codes ", " ++ value)) (joined v s e) in
            (
              w,
              s ++ (codes ", " ++ value),
              ground arith,
              to_str-from_str (s ++ (codes ", " ++ value)) w f,
              lists_token-append value s after_space,
            )
      ]
    ]

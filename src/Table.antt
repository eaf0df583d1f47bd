-- ===== src/Table.antt =====
-- The concurrent map of the crate `dashmap`, which the circuit breaker and the rate limiter keep
-- their keys in. It is not part of the repository: its operations and their documented behaviour are
-- a parameter. The order in which it visits its entries is left open.
pub mod Assoc
use corx.Prelude.{
  ℕ, ◌≡◌, Bool, false, Option, none, some, List, [], ◌∷◌, Text, text_eq, length, if◌then◌else◌,
}

-- One visit of each entry in order, with a counter that the closure of `retain` mutates.
unfoldable pub retain_list {ℓ} :
    {V : Type ℓ} → (ℕ → V → Bool × ℕ) → ℕ → List (Text × V) → List (Text × V)
retain_list f n [] = []
retain_list f n ((k, v) ∷ rest) =
    let (keep, n') = f n v in
    let others = retain_list f n' rest in if keep then (k, v) ∷ others else others

unfoldable pub find_key {ℓ} : {V : Type ℓ} → Text → List (Text × V) → Option V
find_key k [] = none
find_key k ((j, v) ∷ rest) = if text_eq j k then some v else find_key k rest

pub record Table (V : Type 0) : Type 1 where
  pub Map : Type 0
  pub empty : Map
  pub get : Map → Text → Option V
  pub insert : Map → Text → V → Map
  pub len : Map → ℕ
  pub retain : (ℕ → V → Bool × ℕ) → ℕ → Map → Map
  -- the entries in the order in which `retain` visits them
  pub entries : Map → List (Text × V)
  pub get-empty : (k : Text) → get empty k ≡ none
  pub get-insert :
      (m : Map) (k : Text) (v : V) (j : Text)
      → get (insert m k v) j ≡ (if text_eq k j then some v else get m j)
  pub get-entries : (m : Map) (k : Text) → get m k ≡ find_key k (entries m)
  pub len-entries : (m : Map) → len m ≡ length (entries m)
  pub entries-retain :
      (f : ℕ → V → Bool × ℕ) (n : ℕ) (m : Map)
      → entries (retain f n m) ≡ retain_list f n (entries m)

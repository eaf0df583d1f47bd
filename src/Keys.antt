-- ===== src/Keys.antt =====
-- A set of keys that all tasks share (`DashMap<K, ()>` of the crate dashmap), which the rate limiter
-- counts its keys with. The crate is not part of the repository: its operations and their documented
-- behaviour are a parameter.
pub mod Listed
use corx.Prelude.{
  ℕ, ◌+◌, ◌≡◌, ◌↔◌, Bool, true, false, ◌&&◌, not, List, length, filter, if◌then◌else◌,
}

-- How many keys of a list pass a test.
abbrev pub count {ℓ} : {K : Type ℓ} → (K → Bool) → List K → ℕ
count p ks = length (filter p ks)

pub record Keys (K : Type 0) : Type 1 where
  -- the comparison of two keys (`Eq`)
  pub same : K → K → Bool
  pub same_iff : (j k : K) → (same j k ≡ true) ↔ (j ≡ k)
  pub Set : Type 0
  pub empty : Set
  pub contains_key : Set → K → Bool
  pub len : Set → ℕ
  pub insert : Set → K → Set
  pub remove : Set → K → Set
  -- the keys of the set, each once
  pub keys : Set → List K
  pub contains_key-empty : (k : K) → contains_key empty k ≡ false
  pub contains_key-insert :
      (s : Set) (k j : K)
      → contains_key (insert s k) j ≡ (if same k j then true else contains_key s j)
  pub len-keys : (s : Set) → len s ≡ length (keys s)
  pub len-empty : len empty ≡ 0
  -- a key that is there already is not added once more
  pub count-insert :
      (s : Set) (k : K) (p : K → Bool)
      → count p (keys (insert s k))
        ≡ (if contains_key s k then 0 else (if p k then 1 else 0)) + count p (keys s)
  pub count-remove :
      (s : Set) (k : K) (p : K → Bool)
      → count p (keys (remove s k)) ≡ count (λ j. p j && not (same k j)) (keys s)

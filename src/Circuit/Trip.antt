-- ===== src/Circuit/Trip.antt =====
-- How failures of a closed host add up until its circuit opens.
use mathlib.Core.List.{append-nil, append_assoc}
use corx.Circuit.{closed, open_until, HostCircuit, new_host, recent, record_failure_on, u32_max}
use corx.Prelude.{
  ℕ, ◌+◌, ◌-◌, ◌≤◌, ◌<◌, ◌≡◌, refl, ap, ◌∙◌, List, [], ◌∷◌, ◌++◌, arith, length, filter, All, leb,
  length-append, All-append,
}

-- The host after failures at the times of the list, one after the other.
abbrev pub fail_at : ℕ → ℕ → ℕ → HostCircuit → List ℕ → HostCircuit
fail_at window threshold open_duration c [] = c
fail_at window threshold open_duration c (t ∷ ts) =
    fail_at window threshold open_duration (record_failure_on c t window threshold open_duration).0
      ts

module _ (window threshold open_duration start : ℕ) where
  abbrev remembering : List ℕ → HostCircuit
  remembering old = record { state = closed; failures = old }

  filter_recent :
      (now : ℕ) (ts : List ℕ)
      → now ≤ start + window
      → All (λ t. start ≤ t) ts
      → filter (λ t. leb (now - t) window) ts ≡ ts
  filter_recent now [] h a = refl
  filter_recent now (t ∷ ts) h a = ground (arith, filter_recent now ts h a.1)

  fail_once :
      (old : List ℕ) (t : ℕ)
      → threshold ≤ u32_max
      → t ≤ start + window
      → All (λ t. start ≤ t) old
      → length old + 1 < threshold
      → (record_failure_on (remembering old) t window threshold open_duration).0
        ≡ remembering (old ++ t ∷ [])
  unfolding record_failure_on recent
  fail_once old t k b a h = ground (arith, filter_recent t old b a, length-append old (t ∷ []))

  fail_last :
      (old : List ℕ) (t : ℕ)
      → threshold ≤ u32_max
      → t ≤ start + window
      → All (λ t. start ≤ t) old
      → length old + 1 ≡ threshold
      → (record_failure_on (remembering old) t window threshold open_duration).0
        ≡ record { state = open_until (t + open_duration); failures = [] }
  unfolding record_failure_on recent
  fail_last old t k b a h = ground (arith, filter_recent t old b a, length-append old (t ∷ []))

  fail_at-remembers :
      (old ts : List ℕ)
      → threshold ≤ u32_max
      → All (λ t. start ≤ t) old
      → All (λ t. (start ≤ t) × (t ≤ start + window)) ts
      → length old + length ts < threshold
      → fail_at window threshold open_duration (remembering old) ts ≡ remembering (old ++ ts)
  fail_at-remembers old [] k a b h = rw append-nil
  fail_at-remembers old (t ∷ ts) k a b h = rw (fail_once old t k b.0.1 a (omega arith)) (
      fail_at-remembers (old ++ t ∷ []) ts k (All-append _ old (t ∷ []) a (b.0.0, tt)) b.1
        (omega (arith, length-append old (t ∷ [])))
      ∙ ap remembering (append_assoc old (t ∷ []) ts))

  All-start :
      (ts : List ℕ) → All (λ t. (start ≤ t) × (t ≤ start + window)) ts → All (λ t. start ≤ t) ts
  All-start [] b = tt
  All-start (t ∷ ts) b = (b.0.0, All-start ts b.1)

-- Failures of a fresh host inside one window leave it closed as long as they are fewer than the
-- threshold, and the failure that reaches the threshold opens it for `open_duration`.
pub fail_at-trips :
    (window threshold open_duration start : ℕ) (ts : List ℕ) (last : ℕ)
    → threshold ≤ u32_max
    → All (λ t. (start ≤ t) × (t ≤ start + window)) ts
    → last ≤ start + window
    → length ts + 1 ≡ threshold
    → ((fail_at window threshold open_duration new_host ts).state ≡ closed)
      × ((record_failure_on
            (fail_at window threshold open_duration new_host ts)
            last
            window
            threshold
            open_duration).0
          ≡ record { state = open_until (last + open_duration); failures = [] })
fail_at-trips window threshold open_duration start ts last k b l n =
    let all = fail_at-remembers window threshold open_duration start [] ts k tt b (omega arith) in
    rw all (
      refl,
      fail_last window threshold open_duration start ts last k l
          (All-start window threshold open_duration start ts b) n,
    )

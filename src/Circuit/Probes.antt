-- ===== src/Circuit/Probes.antt =====
-- What an open or half-open circuit lets through in a stretch of time in which nothing settles.
use Prim.Native.Nat.{min}
use corx.Circuit.{State, open_until, half_open, check_state, u32_max}
use corx.Prelude.{
  ℕ, suc, ◌+◌, ◌-◌, ◌≤◌, ◌<◌, ◌≡◌, refl, List, [], ◌∷◌, arith, length, All, if◌then◌else◌,
}

-- The state after the checks at the times of the list, and how many of them were granted.
unfoldable pub check_at : ℕ → ℕ → State → List ℕ → State × ℕ
unfolding check_state
check_at half_open_max open_duration s [] = (s, 0)
check_at half_open_max open_duration s (t ∷ ts) =
    let (s', allowed) = check_state s t half_open_max open_duration in
    let (s'', granted) = check_at half_open_max open_duration s' ts in
    (s'', if allowed then suc granted else granted)

module _ (half_open_max open_duration : ℕ) where
  -- While an open circuit's time has not come, every check is refused and the state stays.
  pub check_at-open :
      (until : ℕ) (ts : List ℕ)
      → All (λ t. t < until) ts
      → check_at half_open_max open_duration (open_until until) ts ≡ (open_until until, 0)
  unfolding check_at check_state
  check_at-open until [] h = refl
  check_at-open until (t ∷ ts) h = ground (arith, check_at-open until ts h.1)

  -- A half-open circuit grants its checks in turn up to the budget, and then none.
  pub check_at-half_open :
      (probes since : ℕ) (ts : List ℕ)
      → half_open_max ≤ u32_max
      → probes ≤ half_open_max
      → All (λ t. t - since < open_duration) ts
      → probes + (check_at half_open_max open_duration (half_open probes since) ts).1
        ≡ min (probes + length ts) half_open_max
  unfolding check_at check_state
  check_at-half_open probes since [] k p h = omega arith
  check_at-half_open probes since (t ∷ ts) k p h = ground (
    arith,
    check_at-half_open probes since ts k p h.1,
    check_at-half_open (min (probes + 1) u32_max) since ts k,
  )

  within :
      (start t : ℕ) (ts : List ℕ)
      → start ≤ t
      → All (λ t'. (start ≤ t') × (t' < start + open_duration)) ts
      → All (λ t'. t' - t < open_duration) ts
  within start t [] s h = tt
  within start t (t' ∷ ts) s h = (omega arith, within start t ts s h.1)

  -- In a stretch of time no longer than `open_duration`, in which no request settles and the circuit
  -- of the host is not evicted from the map, an open circuit grants at most `half_open_max` requests,
  -- however many ask.
  pub check_at-budget :
      (until start : ℕ) (ts : List ℕ)
      → 1 ≤ half_open_max
      → half_open_max ≤ u32_max
      → All (λ t. (start ≤ t) × (t < start + open_duration)) ts
      → (check_at half_open_max open_duration (open_until until) ts).1 ≤ half_open_max
  unfolding check_at check_state
  check_at-budget until start [] p k h = omega arith
  check_at-budget until start (t ∷ ts) p k h = ground (
    arith,
    check_at-budget until start ts p k h.1,
    check_at-half_open 1 t ts k p (within start t ts (omega arith) h.1),
  )

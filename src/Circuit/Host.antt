-- ===== src/Circuit/Host.antt =====
-- One host's circuit: its invariant, when it opens, and when it lets requests through again.
use Prim.Native.Nat.{min}
use corx.Circuit.{
  State, closed, open_until, half_open, HostCircuit, new_host, half_open_state, check_state,
  transition_on_check, recent, record_failure_on, u32_max,
}
use corx.Prelude.{
  ℕ, ◌+◌, ◌-◌, ◌≤◌, ◌<◌, ◌≡◌, refl, ◌⊎◌, ◌↔◌, inl, inr, true, [], ◌∷◌, ◌||◌, arith, length, filter,
  leb, length-append, Bool-cases,
}

-- A half-open circuit has let at least one probe through, and no more than its budget.
abbrev pub ProbesFit : ℕ → State → Type 0
ProbesFit half_open_max closed = Unit
ProbesFit half_open_max (open_until until) = Unit
ProbesFit half_open_max (half_open probes since) = (1 ≤ probes) × (probes ≤ half_open_max)

-- Fewer failures are remembered than trip the breaker.
pub record IsValid (threshold half_open_max : ℕ) (c : HostCircuit) : Type 0 where
  pub few : length c.failures < threshold
  pub budget : ProbesFit half_open_max c.state

check_state-ProbesFit :
    (s : State) (now half_open_max open_duration : ℕ)
    → 1 ≤ half_open_max
    → ProbesFit half_open_max s
    → ProbesFit half_open_max (check_state s now half_open_max open_duration).0
unfolding check_state
check_state-ProbesFit closed now half_open_max open_duration h p = tt
check_state-ProbesFit (open_until until) now half_open_max open_duration h p = ground arith
check_state-ProbesFit (half_open probes since) now half_open_max open_duration h p = ground arith

module _ (threshold half_open_max : ℕ) where
  pub new_host-IsValid : 1 ≤ threshold → IsValid threshold half_open_max new_host
  new_host-IsValid h = record { few = h; budget = tt }

  -- A check keeps a host valid: few failures, and no more probes granted than the budget, which is
  -- not 0.
  pub transition_on_check-IsValid :
      (c : HostCircuit) (now open_duration : ℕ)
      → 1 ≤ half_open_max
      → IsValid threshold half_open_max c
      → IsValid threshold half_open_max (transition_on_check c now half_open_max open_duration).0
  unfolding transition_on_check
  transition_on_check-IsValid c now open_duration h v = record {
    few = v.few;
    budget = check_state-ProbesFit c.state now half_open_max open_duration h v.budget;
  }

  -- A recorded failure keeps a host valid, under a threshold that is not 0 and fits into 32 bits.
  pub record_failure_on-IsValid :
      (c : HostCircuit) (now window open_duration : ℕ)
      → 1 ≤ threshold
      → threshold ≤ u32_max
      → IsValid threshold half_open_max c
      → IsValid threshold half_open_max (record_failure_on c now window threshold open_duration).0
  unfolding record_failure_on
  record_failure_on-IsValid c now window open_duration h k v =
      elim (Bool-cases (
        half_open_state c.state
        || leb threshold (min (length (recent c.failures now window)) u32_max))) [
          | inl e ↦ rw e (record { few = h; budget = tt })
          | inr e ↦ rw e (record { few = ground arith; budget = v.budget })
        ]

-- A failure opens the circuit exactly when it was a probe, or when the failures inside the window,
-- this one counted, reach the threshold.
pub record_failure_on-opens_iff :
    (c : HostCircuit) (now window threshold open_duration : ℕ)
    → threshold ≤ u32_max
    → ((record_failure_on c now window threshold open_duration).1 ≡ true) ↔ (
        (half_open_state c.state ≡ true)
        ⊎ (threshold ≤ length (filter (λ t. leb (now - t) window) c.failures) + 1))
unfolding record_failure_on recent
record_failure_on-opens_iff c now window threshold open_duration k =
    let n = length-append (filter (λ t. leb (now - t) window) c.failures) (now ∷ []) in
    (λ e. ground (arith, n), λ e. ground (arith, n))

-- Whatever its state, a host lets a request through from some time on: there is no lock-out.
abbrev pub release : State → ℕ → ℕ
release closed open_duration = 0
release (open_until until) open_duration = until
release (half_open probes since) open_duration = since + open_duration

-- A check at or after the time `release` is granted, whatever the state of the host and however
-- many probes were never settled.
pub transition_on_check-allows :
    (c : HostCircuit) (now half_open_max open_duration : ℕ)
    → release c.state open_duration ≤ now
    → (transition_on_check c now half_open_max open_duration).1 ≡ true
unfolding transition_on_check
transition_on_check-allows c now half_open_max open_duration h = go c.state h
  where
    go :
        (s : State)
        → release s open_duration ≤ now
        → (check_state s now half_open_max open_duration).1 ≡ true
    go closed h = refl
    go (open_until until) h = ground arith
    go (half_open probes since) h = ground arith

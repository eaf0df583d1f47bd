-- ===== src/Circuit/Open.antt =====
-- What keeps the circuit of one host open.
use Prim.Native.Nat.{min}
use corx.Circuit.{
  open_until, HostCircuit, check_state, transition_on_check, record_failure_on, recent, is_closed,
  is_expired_open, half_open_state, u32_max,
}
use corx.Prelude.{
  ℕ, ◌+◌, ◌≤◌, ◌<◌, ◌≡◌, refl, false, arith, length, leb, ◌||◌, inl, inr, Bool-cases,
}

-- An open host at least up to a time.
pub record IsOpen (u : ℕ) (c : HostCircuit) : Type 0 where
  pub until : ℕ
  pub state : c.state ≡ open_until until
  pub lasts : u ≤ until

pub IsOpen-protected :
    (u now : ℕ) (c : HostCircuit)
    → now < u
    → IsOpen u c
    → (is_closed c ≡ false) × (is_expired_open now c ≡ false)
unfolding is_closed is_expired_open
IsOpen-protected u now c h o = ground (arith, o.state, o.lasts)

pub IsOpen-check :
    (u now half_open_max open_duration : ℕ) (c : HostCircuit)
    → now < u
    → IsOpen u c
    → transition_on_check c now half_open_max open_duration ≡ (c, false)
unfolding transition_on_check check_state
IsOpen-check u now half_open_max open_duration c h o = ground (arith, o.state, o.lasts)

pub IsOpen-failure :
    (u now window threshold open_duration : ℕ) (c : HostCircuit)
    → u ≤ now + open_duration
    → IsOpen u c
    → IsOpen u (record_failure_on c now window threshold open_duration).0
unfolding record_failure_on
IsOpen-failure u now window threshold open_duration c h o =
    elim (Bool-cases (
      half_open_state c.state
      || leb threshold (min (length (recent c.failures now window)) u32_max))) [
        | inl e ↦ rw e (record { until = now + open_duration; state = refl; lasts = h })
        | inr e ↦ rw e (record { until = o.until; state = o.state; lasts = o.lasts })
      ]

-- ===== src/Server/LoadShed.antt =====
-- crates/corx-server/src/middleware/load_shed.rs: the cap on requests in flight. Every access to the
-- counter is one atomic step, and the requests interleave in any order. The counter stays far below
-- 2 ^ 64, so its additions are plain.
use corx.Prelude.{ℕ, ◌+◌, ◌-◌, ◌≤◌, ◌<◌, ◌≡◌, Bool, true, false, arith, leb, ◌==◌, if◌then◌else◌}

-- `fetch_add(1)` and the test of the value before it: the new counter, and whether the request
-- goes on
unfoldable pub take_slot : ℕ → ℕ → ℕ × Bool
take_slot max inflight = if leb max inflight then (inflight + 1, false) else (inflight + 1, true)

-- the entry of `load_shed_layer`: a cap of 0 leaves the counter alone
unfoldable pub enter : ℕ → ℕ → ℕ × Bool
enter max inflight = if max == 0 then (inflight, true) else take_slot max inflight

-- `fetch_sub(1)`, in the rejecting branch and in `Drop for InflightPermit`
unfoldable pub give_back : ℕ → ℕ
give_back inflight = inflight - 1

-- The shared counter, the requests that hold a permit, and those that are about to undo their
-- increment and answer 503.
pub record Shedding : Type 0 where
  pub inflight : ℕ
  pub permits : ℕ
  pub rejecting : ℕ

-- One atomic step of one request, under a cap `max` that is not 0.
pub data Step (max : ℕ) : Shedding → Shedding → Type 0 where
  admitted :
      (s : Shedding)
      → (enter max s.inflight).1 ≡ true
      → Step max s (record s { inflight = (enter max s.inflight).0; permits = s.permits + 1 })
  shed :
      (s : Shedding)
      → (enter max s.inflight).1 ≡ false
      → Step max s (record s { inflight = (enter max s.inflight).0; rejecting = s.rejecting + 1 })
  undone :
      (s : Shedding)
      → 0 < s.rejecting
      → Step max s (record s { inflight = give_back s.inflight; rejecting = s.rejecting - 1 })
  dropped :
      (s : Shedding)
      → 0 < s.permits
      → Step max s (record s { inflight = give_back s.inflight; permits = s.permits - 1 })

pub data Reach (max : ℕ) (s : Shedding) : Shedding → Type 0 where
  unmoved : Reach max s s
  after : {t u : Shedding} → Step max t u → Reach max s t → Reach max s u

abbrev pub idle : Shedding
idle = record { inflight = 0; permits = 0; rejecting = 0 }

pub record IsCounted (max : ℕ) (s : Shedding) : Type 0 where
  pub counted : s.inflight ≡ s.permits + s.rejecting
  pub capped : s.permits ≤ max

Step-IsCounted :
    {max : ℕ} {s t : Shedding} → 0 < max → Step max s t → IsCounted max s → IsCounted max t
unfolding enter take_slot give_back
Step-IsCounted p (admitted s h) c = ground arith
Step-IsCounted p (shed s h) c = ground arith
Step-IsCounted p (undone s h) c = ground arith
Step-IsCounted p (dropped s h) c = ground arith

-- In every interleaving of requests the counter is the number of permits and of pending rejections,
-- and at most `max` requests hold a permit.
pub Reach-IsCounted : (max : ℕ) {s : Shedding} → 0 < max → Reach max idle s → IsCounted max s
Reach-IsCounted max p unmoved = record { counted = omega arith; capped = omega arith }
Reach-IsCounted max p (after st r) = Step-IsCounted p st (Reach-IsCounted max p r)

-- Where no rejection is pending, a request is shed exactly when `max` requests hold a permit, and
-- once all have ended the counter is 0 again.
pub shed_iff_full :
    (max : ℕ) {s : Shedding}
    → 0 < max
    → Reach max idle s
    → s.rejecting ≡ 0
    → ((enter max s.inflight).1 ≡ leb (s.permits + 1) max) × (s.permits ≡ 0 → s.inflight ≡ 0)
unfolding enter take_slot
shed_iff_full max {s} p r none_pending =
    let c = Reach-IsCounted max p r in (ground (arith, c.counted), λ h. omega (arith, c.counted))

-- ===== src/Server/Body.antt =====
-- crates/corx-server/src/observability/metering.rs, `LimitingBody`: the cap on the bytes of a
-- response body. What the inner body answers to each poll is an event of the environment; a frame
-- carries its number of data bytes, and none where it is a frame of trailers.
use Prim.Native.Nat.{min}
use corx.Prelude.{
  ℕ, ◌+◌, ◌-◌, ◌≤◌, ◌<◌, ◌≡◌, refl, ◌⊎◌, Bool, ◌&&◌, List, [], ◌∷◌, Option, none, some, arith, ltb,
  if◌then◌else◌,
}

abbrev pub u64_max : ℕ
u64_max = 18446744073709551615

-- `LimitingBody`, without the inner body
pub record LimitingBody : Type 0 where
  pub max_bytes : ℕ
  pub seen : ℕ

-- `LimitingBody::new`
unfoldable pub new : ℕ → LimitingBody
new max_bytes = record { max_bytes = max_bytes; seen = 0 }

-- A poll of a body: `Pending`, the end, an error, or a frame.
pub data Poll : Type 0 where
  pending finished failed : Poll
  too_large : Poll
  frame : Option ℕ → Poll

-- `over_budget`
unfoldable pub over_budget : ℕ → ℕ → Bool
over_budget max_bytes seen = ltb 0 max_bytes && ltb max_bytes seen

-- the count of a frame's data, with `saturating_add`
unfoldable pub count_data : ℕ → Option ℕ → ℕ
count_data seen none = seen
count_data seen (some n) = min (seen + min n u64_max) u64_max

-- the `match` on the poll of the inner body
unfoldable pub pass_on : LimitingBody → Poll → LimitingBody × Poll
pass_on b (frame data_ref) =
    let b' = record b { seen = count_data b.seen data_ref } in
    if over_budget b'.max_bytes b'.seen then (b', too_large) else (b', frame data_ref)
pass_on b other = (b, other)

-- `poll_frame`; the inner body is polled only within the budget
unfoldable pub poll_frame : LimitingBody → Poll → LimitingBody × Poll
poll_frame b inner = if over_budget b.max_bytes b.seen then (b, too_large) else pass_on b inner

-- What a stream of polls delivers, in bytes.
abbrev pub bytes : Poll → ℕ
bytes (frame (some n)) = n
bytes other = 0

unfoldable pub delivered : LimitingBody → List Poll → ℕ
delivered b [] = 0
delivered b (inner ∷ rest) = let (b', out) = poll_frame b inner in bytes out + delivered b' rest

-- What a stream of polls of the inner body offers.
abbrev pub offered : List Poll → ℕ
offered [] = 0
offered (inner ∷ rest) = bytes inner + offered rest

unfoldable pub outputs : LimitingBody → List Poll → List Poll
outputs b [] = []
outputs b (inner ∷ rest) = let (b', out) = poll_frame b inner in out ∷ outputs b' rest

-- One poll: what it delivers is counted, and only within the budget.
record Counted (b b' : LimitingBody) (out : Poll) : Type 0 where
  cap : b'.max_bytes ≡ b.max_bytes
  grows : b.seen ≤ b'.seen
  small : b'.seen ≤ u64_max
  spent : (bytes out ≡ 0) ⊎ ((b'.seen ≡ b.seen + bytes out) × (b'.seen ≤ b.max_bytes))

poll_frame-Counted :
    (b : LimitingBody) (inner : Poll)
    → 0 < b.max_bytes
    → b.max_bytes < u64_max
    → b.seen ≤ u64_max
    → Counted b (poll_frame b inner).0 (poll_frame b inner).1
unfolding poll_frame pass_on count_data over_budget
poll_frame-Counted b pending p q r = ground arith
poll_frame-Counted b finished p q r = ground arith
poll_frame-Counted b failed p q r = ground arith
poll_frame-Counted b too_large p q r = ground arith
poll_frame-Counted b (frame none) p q r = ground arith
poll_frame-Counted b (frame (some n)) p q r = ground arith

delivered-le-left :
    (b : LimitingBody) (polls : List Poll)
    → 0 < b.max_bytes
    → b.max_bytes < u64_max
    → b.seen ≤ u64_max
    → delivered b polls ≤ b.max_bytes - b.seen
unfolding delivered
delivered-le-left b [] p q r = omega arith
delivered-le-left b (inner ∷ polls) p q r =
    let c = poll_frame-Counted b inner p q r in
    let rest =
      delivered-le-left (poll_frame b inner).0 polls (omega (arith, c.cap)) (omega (arith, c.cap))
        c.small in
    ground (arith, c.cap, c.grows, c.spent, rest)

-- With a cap that is not 0 and below 2 ^ 64 - 1, no stream of polls ever delivers more data than the
-- cap.
pub delivered-le-max :
    (max_bytes : ℕ) (polls : List Poll)
    → 0 < max_bytes
    → max_bytes < u64_max
    → delivered (new max_bytes) polls ≤ max_bytes
unfolding new
delivered-le-max max_bytes polls p q =
    omega (
      arith,
      delivered-le-left (record { max_bytes = max_bytes; seen = 0 }) polls p q (omega arith),
    )

outputs-within :
    (b : LimitingBody) (polls : List Poll)
    → b.max_bytes < u64_max
    → (b.max_bytes ≡ 0) ⊎ (b.seen + offered polls ≤ b.max_bytes)
    → outputs b polls ≡ polls
unfolding outputs poll_frame pass_on count_data over_budget
outputs-within b [] q h = refl
outputs-within b (pending ∷ polls) q h = ground (arith, outputs-within b polls q)
outputs-within b (finished ∷ polls) q h = ground (arith, outputs-within b polls q)
outputs-within b (failed ∷ polls) q h = ground (arith, outputs-within b polls q)
outputs-within b (too_large ∷ polls) q h = ground (arith, outputs-within b polls q)
outputs-within b (frame none ∷ polls) q h = ground (arith, outputs-within b polls q)
outputs-within b (frame (some n) ∷ polls) q h =
    ground (arith, outputs-within (record b { seen = count_data b.seen (some n) }) polls q)

-- For a cap below 2 ^ 64 - 1, the wrapper passes every poll on unchanged if the cap is 0, or if the
-- body fits into it.
pub outputs-unchanged :
    (max_bytes : ℕ) (polls : List Poll)
    → max_bytes < u64_max
    → (max_bytes ≡ 0) ⊎ (offered polls ≤ max_bytes)
    → outputs (new max_bytes) polls ≡ polls
unfolding new
outputs-unchanged max_bytes polls q h =
    outputs-within (record { max_bytes = max_bytes; seen = 0 }) polls q (ground arith)

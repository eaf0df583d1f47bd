-- ===== src/Server/Auth/ConstantTime.antt =====
-- The comparison without early exit decides equality of byte strings.
use Prim.Native.Nat.{bit_xor, bit_or}
use corx.Prelude.{
  ℕ, zero, suc, ◌<◌, ◌≡◌, refl, ◌↔◌, Bool, true, false, ◌&&◌, not, [], ◌∷◌, Text, ◌==◌, ltb, length,
  All, arith, text_eq, text_eq_iff, Bool-cases, inl, inr, ap, ◌∙◌,
}
use corx.Server.Auth.{diff_bits, ct_eq}

-- A test passes for all numbers under a limit. At a literal limit this is computed.
passes_under : (ℕ → Bool) → ℕ → Bool
passes_under test zero = true
passes_under test (suc limit) = passes_under test limit && test limit

passes_under-at :
    (test : ℕ → Bool) (limit y : ℕ) → passes_under test limit ≡ true → y < limit → test y ≡ true
unfolding passes_under
passes_under-at test zero y e h = absurd (omega arith)
passes_under-at test (suc limit) y e h = ground (arith, passes_under-at test limit y)

same : Bool → Bool → Bool
same true b = b
same false b = not b

abbrev byte_laws : ℕ → ℕ → Bool
byte_laws x y =
    same (bit_xor x y == 0) (x == y)
    && same (bit_or x y == 0) (x == 0 && y == 0)
    && ltb (bit_xor x y) 256
    && ltb (bit_or x y) 256

byte_table : passes_under (λ x. passes_under (byte_laws x) 256) 256 ≡ true
unfolding passes_under same
byte_table = refl

-- The laws of one pair of bytes.
record ByteLaws (x y : ℕ) : Type 0 where
  xor_zero : same (bit_xor x y == 0) (x == y) ≡ true
  or_zero : same (bit_or x y == 0) (x == 0 && y == 0) ≡ true
  xor_byte : ltb (bit_xor x y) 256 ≡ true
  or_byte : ltb (bit_or x y) 256 ≡ true

bytes_ok : (x y : ℕ) → x < 256 → y < 256 → ByteLaws x y
bytes_ok x y hx hy =
    let all = passes_under-at (byte_laws x) 256 y (passes_under-at _ 256 x byte_table hx) hy in
    record {
      xor_zero = ground arith;
      or_zero = ground arith;
      xor_byte = ground arith;
      or_byte = ground arith;
    }

-- A byte string.
abbrev pub IsBytes : Text → Type 0
IsBytes = All (λ c. c < 256)

ltb→lt : (a b : ℕ) → ltb a b ≡ true → a < b
ltb→lt a b h = ground arith

step :
    (joined bits diff : ℕ) (equal rest : Bool)
    → same (joined == 0) (diff == 0 && bits == 0) ≡ true
    → same (bits == 0) equal ≡ true
    → (joined == 0 && rest) ≡ (diff == 0 && (equal && rest))
unfolding same
step joined bits diff equal rest h k = ground arith

diff_bits-eq-zero :
    (diff : ℕ) (a b : Text)
    → diff < 256
    → IsBytes a
    → IsBytes b
    → length a ≡ length b
    → (diff_bits diff a b == 0) ≡ (diff == 0 && text_eq a b)
unfolding diff_bits text_eq
diff_bits-eq-zero diff [] [] d ha hb l = ground arith
diff_bits-eq-zero diff [] (y ∷ b) d ha hb l = absurd (omega arith)
diff_bits-eq-zero diff (x ∷ a) [] d ha hb l = absurd (omega arith)
diff_bits-eq-zero diff (x ∷ a) (y ∷ b) d ha hb l =
    let xor = bytes_ok x y ha.0 hb.0 in
    let small : bit_xor x y < 256 = ltb→lt (bit_xor x y) 256 xor.xor_byte in
    let or = bytes_ok diff (bit_xor x y) d small in
    let ih =
      diff_bits-eq-zero (bit_or diff (bit_xor x y)) a b (ltb→lt _ 256 or.or_byte) ha.1 hb.1
        (omega arith) in
    ih
    ∙ step (bit_or diff (bit_xor x y)) (bit_xor x y) diff (x == y) (text_eq a b) or.or_zero
        xor.xor_zero

-- The comparison without early exit answers whether two byte strings are equal.
pub ct_eq_iff : (a b : Text) → IsBytes a → IsBytes b → (ct_eq a b ≡ true) ↔ (a ≡ b)
unfolding ct_eq
ct_eq_iff a b ha hb = elim (Bool-cases (length a == length b)) [
  | inl e ↦
      let zero = diff_bits-eq-zero 0 a b (omega arith) ha hb (ground arith) in
      rw (e, zero) (text_eq_iff a b)
  | inr e ↦ rw e (λ h. cc, λ h. absurd (ground (arith, ap length h)))
]

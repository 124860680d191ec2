-- ===== src/MoeMath/PackedUint128/Arithmetic.antt =====
-- `add`, `sub` and the scalar product act on the two halves of a packed word apart.
use arbitrage_bot_v.Base.{ℕ, ◌+◌, ◌-◌, ◌*◌, ◌/◌, ◌^◌, ◌≤◌, ◌<◌, ◌≡◌, arith}
use arbitrage_bot_v.Base.{ltb, ◌&&◌, ◌||◌, if◌then◌else◌, true, false, ==_ne, ◌==◌}
use arbitrage_bot_v.Base.Bits.{bit_and_mask}
use arbitrage_bot_v.Base.Word.{add256, mul256}
use arbitrage_bot_v.MoeMath.Error.{ok, err, overflow, underflow}
use arbitrage_bot_v.MoeMath.PackedUint128.{
  encode, decode, add, sub, scalar_mul_div_basis_point_round_down,
}
use native.Mathlib.Decide.{ℕ_discrete}
use native.Mathlib.Nat.{mul-le-mul_left}
use arbitrage_bot_v.MoeMath.PackedUint128.Halves.{encode_sum}

module _ (a b c d : ℕ) (ha : a < 2 ^ 128) (hb : b < 2 ^ 128) (hc : c < 2 ^ 128)
    (hd : d < 2 ^ 128) where
  -- The sum of two packed pairs is the pair of the sums, and an overflow is reported exactly when
  -- a half overflows.
  pub add-encode : add (encode a b) (encode c d) ≡ (
      if ltb (a + c) (2 ^ 128) && ltb (b + d) (2 ^ 128)
      then ok (encode (a + c) (b + d))
      else err overflow)
  unfolding add
  add-encode = ground (
    arith,
    encode_sum a b ha hb,
    encode_sum c d hc hd,
    bit_and_mask 128 (encode a b),
    bit_and_mask 128 (encode a b / 2 ^ 128),
    bit_and_mask 128 (add256 (encode a b) (encode c d)),
    bit_and_mask 128 (add256 (encode a b) (encode c d) / 2 ^ 128),
    encode_sum (a + c) (b + d),
  )

  -- The difference is the pair of the differences, and an underflow is reported exactly when a half
  -- underflows.
  pub sub-encode :
      sub (encode a b) (encode c d)
      ≡ (if ltb a c || ltb b d then err underflow else ok (encode (a - c) (b - d)))
  unfolding sub
  sub-encode = ground (
    arith,
    encode_sum a b ha hb,
    encode_sum c d hc hd,
    bit_and_mask 128 (encode a b),
    bit_and_mask 128 (encode a b / 2 ^ 128),
    bit_and_mask 128 (encode c d),
    bit_and_mask 128 (encode c d / 2 ^ 128),
    encode_sum (a - c) (b - d),
  )

-- A share in basis points of any word is taken of the two amounts that `decode` reads, rounded
-- down, and never fails.
pub scalar_mul-decode :
    (z m : ℕ)
    → m ≤ 10_000
    → scalar_mul_div_basis_point_round_down z m
      ≡ ok (encode ((decode z).0 * m / 10_000) ((decode z).1 * m / 10_000))
unfolding scalar_mul_div_basis_point_round_down decode
scalar_mul-decode z m h =
    let x1 = (decode z).0 in
    let x2 = (decode z).1 in
    let low : x1 * m ≤ x1 * 10_000 = mul-le-mul_left x1 h in
    let high : x2 * m ≤ x2 * 10_000 = mul-le-mul_left x2 h in
    let plain₁ : mul256 x1 m / 10_000 ≡ x1 * m / 10_000 = omega arith in
    let plain₂ : mul256 x2 m / 10_000 ≡ x2 * m / 10_000 = omega arith in
    let narrow₁ : ltb (x1 * m / 10_000) (2 ^ 128) ≡ true = ground arith in
    let narrow₂ : ltb (x2 * m / 10_000) (2 ^ 128) ≡ true = ground arith in
    let allowed : ltb 10_000 m ≡ false = ground arith in
    elim (ℕ_discrete m 0) [
      | yes none_due ↦
          let zero₁ : x1 * m / 10_000 ≡ 0 = rw none_due (omega arith) in
          let zero₂ : x2 * m / 10_000 ≡ 0 = rw none_due (omega arith) in
          let test : (m == 0) ≡ true = ground arith in
          rw (test, zero₁, zero₂, encode_sum 0 0 (omega arith) (omega arith))
      | no due ↦ rw (==_ne m 0 due, allowed, plain₁, plain₂, narrow₁, narrow₂)
    ]

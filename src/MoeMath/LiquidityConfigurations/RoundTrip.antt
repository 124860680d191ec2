-- ===== src/MoeMath/LiquidityConfigurations/RoundTrip.antt =====
-- A configuration is read back as it was encoded, and an accepted one never hands out more than
-- the deposit.
use arbitrage_bot_v.Base.{
  ℕ, ◌+◌, ◌-◌, ◌*◌, ◌/◌, ◌%◌, ◌^◌, ◌≤◌, ◌<◌, ◌≡◌, refl, arith, ltb, true, false, ◌||◌,
}
use arbitrage_bot_v.Base.Word.{mul256}
use arbitrage_bot_v.MoeMath.Error.{ok, ◌>>=◌}
use arbitrage_bot_v.MoeMath.Encoded.{set}
use arbitrage_bot_v.MoeMath.Encoded.Fields.{set_lem, decode_lem}
use arbitrage_bot_v.MoeMath.Encoded.Readers.{decode_u24_lem, decode_u64_lem}
use arbitrage_bot_v.MoeMath.FeeHelper.{precision}
use arbitrage_bot_v.MoeMath.PackedUint128.{encode, decode}
use arbitrage_bot_v.MoeMath.LiquidityConfigurations.{
  encode_params, decode_params, get_amounts_and_id,
}
use arbitrage_bot_v.MoeMath.PackedUint128.Halves.{decode-encode, decode-lt}
use native.Mathlib.Nat.{mul-le-mul_left}

module _ (x y id : ℕ) (hx : x ≤ precision) (hy : y ≤ precision) (hi : id < 2 ^ 32) where
  word : ℕ
  word = set (set (set 0 x (2 ^ 64 - 1) 88) y (2 ^ 64 - 1) 24) id (2 ^ 24 - 1) 0

  word_sum : word ≡ x * 2 ^ 88 + y * 2 ^ 24 + id % 2 ^ 24
  unfolding word
  word_sum =
      let s1 = set 0 x (2 ^ 64 - 1) 88 in
      let e1 : s1 ≡ x * 2 ^ 88 = omega (arith, set_lem 88 64 104 0 x refl (omega arith)) in
      let s2 = set s1 y (2 ^ 64 - 1) 24 in
      let e2 : s2 ≡ x * 2 ^ 88 + y * 2 ^ 24 =
        omega (arith, set_lem 24 64 168 s1 y refl (omega arith)) in
      omega (arith, set_lem 0 24 232 s2 id refl (omega arith))

  encoded : encode_params x y id ≡ ok word
  unfolding encode_params word
  encoded = let allowed : (ltb precision x || ltb precision y) ≡ false = ground arith in rw allowed

  decoded : decode_params word ≡ ok (x, y, id % 2 ^ 24)
  unfolding decode_params
  decoded = ground (
    arith,
    word_sum,
    decode_u64_lem word 88,
    decode_lem word 64 88,
    decode_u64_lem word 24,
    decode_lem word 64 24,
    decode_u24_lem word 0,
    decode_lem word 24 0,
  )

  -- Shares of at most 10 ^ 18 are encoded and read back unchanged, with the low 24 bits of the id.
  pub decode_params-encode_params :
      (encode_params x y id >>= decode_params) ≡ ok (x, y, id % 2 ^ 24)
  decode_params-encode_params = rw encoded decoded

shares_bounded :
    (config dx dy id : ℕ)
    → decode_params config ≡ ok (dx, dy, id)
    → (dx ≤ precision) × (dy ≤ precision)
unfolding decode_params
shares_bounded config dx dy id e = ground arith

share-le : (x d : ℕ) → d ≤ precision → x < 2 ^ 64 → mul256 x d / precision ≤ x
share-le x d h hx = let share : x * d ≤ x * precision = mul-le-mul_left x h in omega arith

-- A configuration that is accepted never hands out more of a token than the deposit holds, and the
-- calculation of the two shares never overflows.
pub get_amounts_and_id-le :
    (config amounts dx dy id : ℕ)
    → decode_params config ≡ ok (dx, dy, id)
    → (r : ℕ) × (get_amounts_and_id config amounts ≡ ok (r, id))
      × ((decode r).0 ≤ (decode amounts).0)
      × ((decode r).1 ≤ (decode amounts).1)
unfolding get_amounts_and_id
get_amounts_and_id-le config amounts dx dy id e =
    let x1 = (decode amounts).0 in
    let x2 = (decode amounts).1 in
    let (bx, by) = shares_bounded config dx dy id e in
    let (small₁, small₂) = decode-lt amounts in
    let le₁ = share-le x1 dx bx small₁ in
    let le₂ = share-le x2 dy by small₂ in
    let narrow₁ : ltb (mul256 x1 dx / precision) (2 ^ 128) ≡ true = ground arith in
    let narrow₂ : ltb (mul256 x2 dy / precision) (2 ^ 128) ≡ true = ground arith in
    let back =
      decode-encode (mul256 x1 dx / precision) (mul256 x2 dy / precision) (omega arith)
        (omega arith) in
    (
      encode (mul256 x1 dx / precision) (mul256 x2 dy / precision),
      rw (e, narrow₁, narrow₂),
      rw back (omega arith),
      rw back (omega arith),
    )

-- ===== src/MoeMath/Uint128x128Math.antt =====
-- src/amms/moe/math/uint128x128_math.rs: the logarithm and the power of 128.128 fixed-point
-- numbers. An i128 is its word in two's complement.
use arbitrage_bot_v.Base.{
  ℕ, zero, suc, ◌-◌, ◌*◌, ◌/◌, ◌%◌, ◌^◌, ◌&&◌, not, ltb, leb, ◌==◌, if◌then◌else◌,
}
use arbitrage_bot_v.Base.Word.{mul256, shr, word_mod}
use arbitrage_bot_v.Base.Signed.{add128, neg128, is_negative128}
use arbitrage_bot_v.MoeMath.Error.{Result, ok, err, ◌>>=◌, log_underflow, pow_underflow}
use arbitrage_bot_v.MoeMath.BitMath.{most_significant_bit}

abbrev pub scale : ℕ
scale = 2 ^ 128

abbrev log_scale_offset : ℕ
log_scale_offset = 127

abbrev log_scale : ℕ
log_scale = 2 ^ 127

abbrev log_scale_squared : ℕ
log_scale_squared = 2 ^ 254

-- The rounds of the logarithm: one for every bit that `delta` has left.
unfoldable pub log_rounds : ℕ → (delta y result : ℕ) → ℕ
log_rounds zero delta y result = result
log_rounds (suc rounds) delta y result =
    let squared = shr (mul256 y y) log_scale_offset in
    let above = leb (2 ^ 128) squared in
    log_rounds rounds (delta / 2) (if above then squared / 2 else squared)
      (if above then add128 result delta else result)

unfoldable pub log2 : ℕ → Result ℕ
log2 x =
    if x == 0
    then err log_underflow
    else if x == 1
    then ok (neg128 128)
    else (let half = x / 2 in
        let above = leb log_scale half in
        let x1 = if above then half else log_scale_squared / half in
        do
          n ← most_significant_bit (shr x1 log_scale_offset)
          let whole = n * 2 ^ log_scale_offset % 2 ^ 128
          let y = shr x1 n
          let result = if y == log_scale then whole else log_rounds 127 (2 ^ 126) y whole
          ok ((if above then result else neg128 result) * 2 % 2 ^ 128))

-- The rounds of the power, one for every bit of the exponent; 128 are enough for a u128.
unfoldable pub pow_rounds : ℕ → (result squared power : ℕ) → Result ℕ
pow_rounds zero result squared power = ok result
pow_rounds (suc rounds) result squared power =
    let odd = power % 2 == 1 in
    let result' = if odd then shr (mul256 result squared) 128 else result in
    let rest = pow_rounds rounds result' (shr (mul256 squared squared) 128) (power / 2) in
    if power == 0 then ok result else if odd && (result' == 0) then err pow_underflow else rest

unfoldable pub pow : ℕ → ℕ → Result ℕ
pow x y =
    let negative = is_negative128 y in
    let abs_y = if negative then neg128 y else y in
    let large = ltb (2 ^ 64 - 1) x in
    let invert = if large then not negative else negative in
    if y == 0
    then ok scale
    else if not (is_negative128 abs_y) && leb 0x100000 abs_y
    then err pow_underflow
    else (do
      result ← pow_rounds 128 scale (if large then (word_mod - 1) / x else x) abs_y
      ok (if invert then (word_mod - 1) / result else result))

-- ===== src/Tests/MoeAmounts.antt =====
-- src/amms/moe/math: packed amounts, fees and casts at concrete values.
use arbitrage_bot_v.Base.{ℕ, ◌+◌, ◌*◌, ◌/◌, ◌%◌, ◌^◌, ◌≤◌, ◌≡◌, refl, arith, if◌then◌else◌, ltb}
use arbitrage_bot_v.MoeMath.Error.{ok, err, ◌>>=◌, overflow}
use arbitrage_bot_v.Base.Word.{word_mod}
use arbitrage_bot_v.MoeMath.Uint256x256Math.{get_mul_prods, mul_shift_round_down}
use arbitrage_bot_v.MoeMath.Uint256x256Math.Products.{mul_shift_round_down_exact}
use arbitrage_bot_v.MoeMath.Encoded
use arbitrage_bot_v.MoeMath.PackedUint128.{encode, decode}
use arbitrage_bot_v.MoeMath.PackedUint128.Halves.{decode-encode}
use arbitrage_bot_v.MoeMath.FeeHelper.{get_fee_amount, get_fee_amount_from}
use arbitrage_bot_v.MoeMath.FeeHelper.Laws.{get_fee_amount_from-get_fee_amount}
use arbitrage_bot_v.MoeMath.LiquidityConfigurations.{
  encode_params, decode_params, get_amounts_and_id,
}
use arbitrage_bot_v.MoeMath.LiquidityConfigurations.RoundTrip.{
  decode_params-encode_params, get_amounts_and_id-le,
}

decode-encode_example : decode (encode (2 ^ 64 + 5) 7) ≡ ((2 ^ 64 + 5) % 2 ^ 64, 7 % 2 ^ 64)
decode-encode_example = decode-encode (2 ^ 64 + 5) 7 (omega arith) (omega arith)

-- The test of the fee on a net amount: 10 ^ 18 at 10 ^ 14 is charged 100010001000101.
fee_of_one : get_fee_amount (10 ^ 18) (10 ^ 14) ≡ ok 100010001000101
unfolding get_fee_amount
fee_of_one = refl

get_fee_amount_from-get_fee_amount_example :
    get_fee_amount_from (10 ^ 18 + 100010001000101) (10 ^ 14) ≡ ok 100010001000101
get_fee_amount_from-get_fee_amount_example =
    get_fee_amount_from-get_fee_amount (10 ^ 18) (10 ^ 14) 100010001000101 (omega arith)
      (omega arith) fee_of_one

abbrev half : ℕ
half = 500_000_000_000_000_000

decode_params-encode_params_example :
    (encode_params half half 123 >>= decode_params) ≡ ok (half, half, 123 % 2 ^ 24)
decode_params-encode_params_example =
    decode_params-encode_params half half 123 (omega arith) (omega arith) (omega arith)

abbrev half_config : ℕ
half_config = half * 2 ^ 88 + half * 2 ^ 24 + 123

half_config_decoded : decode_params half_config ≡ ok (half, half, 123)
unfolding decode_params Encoded.decode_u64 Encoded.decode_u24
half_config_decoded = refl

get_amounts_and_id-le_example :
    (r : ℕ) × (get_amounts_and_id half_config (encode (10 ^ 18) (10 ^ 19)) ≡ ok (r, 123))
    × ((decode r).0 ≤ (decode (encode (10 ^ 18) (10 ^ 19))).0)
    × ((decode r).1 ≤ (decode (encode (10 ^ 18) (10 ^ 19))).1)
get_amounts_and_id-le_example =
    get_amounts_and_id-le half_config (encode (10 ^ 18) (10 ^ 19)) half half 123 half_config_decoded

mul_shift_round_down_exact_example : mul_shift_round_down (2 ^ 200) (2 ^ 150 + 1) 128 ≡ (
    if ltb (2 ^ 200 * (2 ^ 150 + 1) / 2 ^ 128) word_mod
    then ok (2 ^ 200 * (2 ^ 150 + 1) / 2 ^ 128)
    else err overflow)
mul_shift_round_down_exact_example =
    mul_shift_round_down_exact 128 (omega arith) (2 ^ 200) (2 ^ 150 + 1) (omega arith) (omega arith)

-- The example of the product that does not fit one word.
mul_shift_wide : mul_shift_round_down (2 ^ 200) (2 ^ 150 + 1) 128 ≡ ok (2 ^ 222 + 2 ^ 72)
unfolding mul_shift_round_down get_mul_prods
mul_shift_wide = refl

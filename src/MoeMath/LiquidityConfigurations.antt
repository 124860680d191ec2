-- ===== src/MoeMath/LiquidityConfigurations.antt =====
-- src/amms/moe/math/liquidity_configurations.rs: how a deposit is spread over the bins.
pub mod RoundTrip
use arbitrage_bot_v.Base.{ℕ, ◌*◌, ◌/◌, ◌^◌, ◌||◌, ltb}
use arbitrage_bot_v.Base.Word.{mul256}
use arbitrage_bot_v.MoeMath.Error.{
  Result, ok, ◌>>=◌, ◌>>◌, refuse, invalid_parameter, invalid_config,
}
use arbitrage_bot_v.MoeMath.Encoded.{set, decode_u24, decode_u64, mask_uint24, mask_uint64}
use arbitrage_bot_v.MoeMath.PackedUint128.{encode, decode, try_u128}
use arbitrage_bot_v.MoeMath.FeeHelper.{precision}

-- The fourth limb is 0xffff.
abbrev max_config_value : ℕ
max_config_value = 0xffff * 2 ^ 192

unfoldable pub encode_params : ℕ → ℕ → ℕ → Result ℕ
encode_params distribution_x distribution_y id = do
  refuse (ltb precision distribution_x || ltb precision distribution_y) invalid_parameter
  let c1 = set 0 distribution_x mask_uint64 88
  let c2 = set c1 distribution_y mask_uint64 24
  ok (set c2 id mask_uint24 0)

unfoldable pub decode_params : ℕ → Result (ℕ × ℕ × ℕ)
decode_params config =
    let dist_x = decode_u64 config 88 in
    let dist_y = decode_u64 config 24 in
    let id = decode_u24 config 0 in
    do
      refuse (ltb max_config_value config || (ltb precision dist_x || ltb precision dist_y))
          invalid_config
      ok (dist_x, dist_y, id)

unfoldable pub get_amounts_and_id : ℕ → ℕ → Result (ℕ × ℕ)
get_amounts_and_id config amounts_in =
    decode_params config >>= λ (distribution_x, distribution_y, id).
    let (x1, x2) = decode amounts_in in
    do
      x1_u128 ← try_u128 (mul256 x1 distribution_x / precision)
      x2_u128 ← try_u128 (mul256 x2 distribution_y / precision)
      ok (encode x1_u128 x2_u128, id)

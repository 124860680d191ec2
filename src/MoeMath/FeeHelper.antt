-- ===== src/MoeMath/FeeHelper.antt =====
-- src/amms/moe/math/fee_helper.rs: fees of a swap, in units of 10 ^ -18.
pub mod Laws
use arbitrage_bot_v.Base.{ℕ, ◌+◌, ◌-◌, ◌*◌, ◌/◌, ltb}
use arbitrage_bot_v.Base.Word.{add256, sub256, mul256}
use arbitrage_bot_v.MoeMath.Error.{
  Result, ok, ◌>>=◌, ◌>>◌, refuse, fee_too_large, protocol_share_too_large,
}
use arbitrage_bot_v.MoeMath.PackedUint128.{try_u128}

abbrev pub precision : ℕ
precision = 1_000_000_000_000_000_000

abbrev pub max_fee : ℕ
max_fee = 100_000_000_000_000_000

abbrev basis_point_max : ℕ
basis_point_max = 10_000

unfoldable pub ensure_fee : ℕ → Result (Unit {0})
ensure_fee total_fee = refuse (ltb max_fee total_fee) fee_too_large

unfoldable pub ensure_protocol_share : ℕ → Result (Unit {0})
ensure_protocol_share protocol_share =
    refuse (ltb basis_point_max protocol_share) protocol_share_too_large

unfoldable pub get_fee_amount_from : ℕ → ℕ → Result ℕ
unfolding ensure_fee
get_fee_amount_from amount_with_fees total_fee = do
  ensure_fee total_fee
  let numerator = add256 (mul256 amount_with_fees total_fee) (sub256 precision 1)
  try_u128 (numerator / precision)

unfoldable pub get_fee_amount : ℕ → ℕ → Result ℕ
unfolding ensure_fee
get_fee_amount amount total_fee = do
  ensure_fee total_fee
  let denominator = precision - total_fee
  let numerator = add256 (mul256 amount total_fee) (sub256 denominator 1)
  try_u128 (numerator / denominator)

unfoldable pub get_composition_fee : ℕ → ℕ → Result ℕ
unfolding ensure_fee
get_composition_fee amount_with_fees total_fee = do
  ensure_fee total_fee
  let precision_squared = mul256 precision precision
  try_u128
      (mul256 (mul256 amount_with_fees total_fee) (add256 total_fee precision) / precision_squared)

unfoldable pub get_protocol_fee_amount : ℕ → ℕ → Result ℕ
unfolding ensure_protocol_share
get_protocol_fee_amount fee_amount protocol_share = do
  ensure_protocol_share protocol_share
  let numerator = mul256 fee_amount protocol_share
  try_u128 (numerator / basis_point_max)

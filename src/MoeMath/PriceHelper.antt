-- ===== src/MoeMath/PriceHelper.antt =====
-- src/amms/moe/math/price_helper.rs: the price of a bin as a 128.128 fixed-point number.
use arbitrage_bot_v.Base.{ℕ, ◌+◌, ◌-◌, ◌/◌, ◌%◌, ◌^◌, leb, ◌==◌, ◌&&◌, if◌then◌else◌}
use arbitrage_bot_v.Base.Word.{add256, shl256}
use arbitrage_bot_v.Base.Signed.{neg128, is_negative128}
use arbitrage_bot_v.MoeMath.Error.{Result, ok, panic, ◌>>=◌, unwrap}
use arbitrage_bot_v.MoeMath.FeeHelper.{precision}
use arbitrage_bot_v.MoeMath.Uint128x128Math.{scale, pow, log2}
use arbitrage_bot_v.MoeMath.Uint256x256Math.{mul_shift_round_down, shift_div_round_down}

abbrev pub scale_offset : ℕ
scale_offset = 128

abbrev real_id_shift : ℕ
real_id_shift = 2 ^ 23

unfoldable pub get_base : ℕ → ℕ
get_base bin_step = add256 scale (shl256 bin_step scale_offset / 10_000)

-- An i32 as a word, and as an i128.
unfoldable pub get_exponent : ℕ → ℕ
get_exponent id = (id + 2 ^ 32 - real_id_shift) % 2 ^ 32

abbrev widened : ℕ → ℕ
widened e = if leb (2 ^ 31) e then e + 2 ^ 128 - 2 ^ 32 else e

unfoldable pub get_price_from_id : ℕ → ℕ → Result ℕ
get_price_from_id id bin_step = unwrap (pow (get_base bin_step) (widened (get_exponent id)))

-- `a / b` on i128.
abbrev div_i128 : ℕ → ℕ → Result ℕ
div_i128 a b =
    let size_a = if is_negative128 a then neg128 a else a in
    let size_b = if is_negative128 b then neg128 b else b in
    let sizes = size_a / size_b in
    if b == 0
    then panic
    else if (a == 2 ^ 127) && (b == 2 ^ 128 - 1)
    then panic
    else if is_negative128 a
    then ok (if is_negative128 b then sizes else neg128 sizes)
    else ok (if is_negative128 b then neg128 sizes else sizes)

unfoldable pub get_id_from_price : ℕ → ℕ → Result ℕ
get_id_from_price price bin_step = do
  log_price ← unwrap (log2 price)
  log_base ← unwrap (log2 (get_base bin_step))
  real_id ← div_i128 log_price log_base
  ok ((real_id_shift + real_id) % 2 ^ 32)

unfoldable pub convert_decimal_price_to_128x128 : ℕ → Result ℕ
convert_decimal_price_to_128x128 price = unwrap (shift_div_round_down price scale_offset precision)

unfoldable pub convert_128x128_price_to_decimal : ℕ → Result ℕ
convert_128x128_price_to_decimal price128x128 =
    unwrap (mul_shift_round_down price128x128 precision scale_offset)

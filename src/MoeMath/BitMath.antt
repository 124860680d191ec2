-- ===== src/MoeMath/BitMath.antt =====
-- src/amms/moe/math/bit_math.rs: the highest and the lowest bit of a word, and the nearest to one.
pub mod Closest
use arbitrage_bot_v.Base.{ℕ, zero, suc, ◌+◌, ◌-◌, ◌*◌, ◌/◌, ◌%◌, ◌^◌, leb, ◌==◌, if◌then◌else◌}
use arbitrage_bot_v.Base.Word.{shl256, shr}
use arbitrage_bot_v.MoeMath.Error.{Result, ok, err, ◌>>=◌, zero_value}

-- `leading_zeros` of a number of the given width.
abbrev pub leading_zeros : ℕ → ℕ → ℕ
leading_zeros zero x = 0
leading_zeros (suc width) x = if leb (2 ^ width) x then 0 else suc (leading_zeros width x)

-- `trailing_zeros`, as far as the width.
abbrev pub trailing_zeros : ℕ → ℕ → ℕ
trailing_zeros zero x = 0
trailing_zeros (suc width) x = if x % 2 == 1 then 0 else suc (trailing_zeros width (x / 2))

unfoldable pub most_significant_bit : ℕ → Result ℕ
most_significant_bit x = if x == 0 then err zero_value else ok (255 - leading_zeros 256 x)

unfoldable pub least_significant_bit : ℕ → Result ℕ
least_significant_bit x = if x == 0 then err zero_value else ok (trailing_zeros 256 x)

-- `u32::MAX`, where there is no such bit.
abbrev pub no_bit : ℕ
no_bit = 2 ^ 32 - 1

unfoldable pub closest_bit_right : ℕ → ℕ → Result ℕ
closest_bit_right x bit =
    let shift = 255 - bit in
    let shifted = shl256 x shift in
    if shifted == 0
    then ok no_bit
    else (do msb ← most_significant_bit shifted; ok ((msb + 2 ^ 32 - shift) % 2 ^ 32))

unfoldable pub closest_bit_left : ℕ → ℕ → Result ℕ
closest_bit_left x bit =
    let shifted = shr x bit in
    if shifted == 0
    then ok no_bit
    else (do lsb ← least_significant_bit shifted; ok ((lsb + bit) % 2 ^ 32))

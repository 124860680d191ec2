-- ===== src/MoeMath/SampleMath.antt =====
-- src/amms/moe/math/sample_math.rs: oracle samples, packed in one word.
pub mod RoundTrip
pub mod Averages
use arbitrage_bot_v.Base.{ℕ, ◌+◌, ◌*◌, ◌/◌, Option, none, some, ◌==◌, if◌then◌else◌}
use arbitrage_bot_v.Base.Word.{u64}
use arbitrage_bot_v.MoeMath.Encoded.{
  set, decode_u8, decode_u16, decode_u40, decode_u64, mask_uint8, mask_uint16, mask_uint40,
  mask_uint64,
}

unfoldable pub encode : ℕ → ℕ → ℕ → ℕ → ℕ → ℕ → ℕ
encode oracle_length cumulative_id cumulative_volatility cumulative_bin_crossed sample_lifetime
      created_at =
    let s1 = set 0 oracle_length mask_uint16 0 in
    let s2 = set s1 cumulative_id mask_uint64 16 in
    let s3 = set s2 cumulative_volatility mask_uint64 80 in
    let s4 = set s3 cumulative_bin_crossed mask_uint64 144 in
    let s5 = set s4 sample_lifetime mask_uint8 208 in set s5 created_at mask_uint40 216

unfoldable pub get_oracle_length : ℕ → ℕ
get_oracle_length sample = decode_u16 sample 0

unfoldable pub get_cumulative_id : ℕ → ℕ
get_cumulative_id sample = decode_u64 sample 16

unfoldable pub get_cumulative_volatility : ℕ → ℕ
get_cumulative_volatility sample = decode_u64 sample 80

unfoldable pub get_cumulative_bin_crossed : ℕ → ℕ
get_cumulative_bin_crossed sample = decode_u64 sample 144

unfoldable pub get_sample_lifetime : ℕ → ℕ
get_sample_lifetime sample = decode_u8 sample 208

unfoldable pub get_sample_creation : ℕ → ℕ
get_sample_creation sample = decode_u40 sample 216

unfoldable pub get_sample_last_update : ℕ → ℕ
get_sample_last_update sample = u64 (get_sample_creation sample + get_sample_lifetime sample)

-- The products and the sum are of 64 bits.
unfoldable pub weighted : ℕ → ℕ → ℕ → ℕ → ℕ
weighted c1 c2 weight1 weight2 =
    u64 (u64 (c1 * weight1) + u64 (c2 * weight2)) / u64 (weight1 + weight2)

-- The division is by a sum that wraps; at 0 it panics.
unfoldable pub get_weighted_average : ℕ → ℕ → ℕ → ℕ → Option (ℕ × ℕ × ℕ)
get_weighted_average sample1 sample2 weight1 weight2 =
    let c_id1 = get_cumulative_id sample1 in
    let c_vol1 = get_cumulative_volatility sample1 in
    let c_bin1 = get_cumulative_bin_crossed sample1 in
    let c_id2 = get_cumulative_id sample2 in
    let c_vol2 = get_cumulative_volatility sample2 in
    let c_bin2 = get_cumulative_bin_crossed sample2 in
    if weight2 == 0
    then some (c_id1, c_vol1, c_bin1)
    else (if weight1 == 0
        then some (c_id2, c_vol2, c_bin2)
        else (if u64 (weight1 + weight2) == 0
            then none
            else some (
              weighted c_id1 c_id2 weight1 weight2,
              weighted c_vol1 c_vol2 weight1 weight2,
              weighted c_bin1 c_bin2 weight1 weight2,
            )))

unfoldable pub update : ℕ → ℕ → ℕ → ℕ → ℕ → ℕ × ℕ × ℕ
update sample delta_time active_id volatility_accumulator bin_crossed = (
  u64 (get_cumulative_id sample + u64 (active_id * delta_time)),
  u64 (get_cumulative_volatility sample + u64 (volatility_accumulator * delta_time)),
  u64 (get_cumulative_bin_crossed sample + u64 (bin_crossed * delta_time)),
)

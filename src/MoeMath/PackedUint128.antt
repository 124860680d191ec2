-- ===== src/MoeMath/PackedUint128.antt =====
-- src/amms/moe/math/packed_uint128_math.rs: two amounts in the halves of one word.
pub mod Halves
pub mod Arithmetic
use arbitrage_bot_v.Base.{ℕ, ◌*◌, ◌/◌, ◌^◌, bit_and, bit_or}
use arbitrage_bot_v.Base.{Bool, true, false, ◌||◌, ltb, ◌==◌, if◌then◌else◌}
use arbitrage_bot_v.Base.Word.{shl256, shr, add256, sub256, mul256, limb}
use arbitrage_bot_v.MoeMath.Error.{
  Result, ok, err, ◌>>=◌, ◌>>◌, refuse, overflow, underflow, multiplier_too_large,
}

abbrev mask_128 : ℕ
mask_128 = 0xffffffffffffffffffffffffffffffff

abbrev basis_point_max_u128 : ℕ
basis_point_max_u128 = 10_000

-- `value.try_into::<u128>()`, an error above 128 bits.
abbrev pub try_u128 : ℕ → Result ℕ
try_u128 value = if ltb value (2 ^ 128) then ok value else err overflow

unfoldable pub encode : ℕ → ℕ → ℕ
encode x1 x2 = let lower = x1 in let upper = shl256 x2 128 in bit_or lower upper

unfoldable pub encode_first : ℕ → ℕ
encode_first x1 = x1

unfoldable pub encode_second : ℕ → ℕ
encode_second x2 = shl256 x2 128

-- Each half is read through the lowest limb, of 64 bits.
unfoldable pub decode : ℕ → ℕ × ℕ
decode z = (limb 0 (bit_and z mask_128), limb 0 (shr z 128))

unfoldable pub decode_x : ℕ → ℕ
decode_x z = limb 0 (bit_and z mask_128)

unfoldable pub decode_y : ℕ → ℕ
decode_y z = limb 0 (shr z 128)

unfoldable pub decode_first : ℕ → Bool → ℕ
unfolding decode_x decode_y
decode_first z is_first = if is_first then decode_x z else decode_y z

unfoldable pub add : ℕ → ℕ → Result ℕ
add x y =
    let z = add256 x y in
    let low = ltb (bit_and z mask_128) (bit_and x mask_128) in
    let high = ltb (bit_and (shr z 128) mask_128) (bit_and (shr x 128) mask_128) in
    if low || high then err overflow else ok z

unfoldable pub add_with_components : ℕ → ℕ → ℕ → Result ℕ
add_with_components x y1 y2 = add x (encode y1 y2)

unfoldable pub sub : ℕ → ℕ → Result ℕ
sub x y =
    let low = ltb (bit_and x mask_128) (bit_and y mask_128) in
    let high = ltb (bit_and (shr x 128) mask_128) (bit_and (shr y 128) mask_128) in
    if low || high then err underflow else ok (sub256 x y)

unfoldable pub sub_with_components : ℕ → ℕ → ℕ → Result ℕ
sub_with_components x y1 y2 = sub x (encode y1 y2)

unfoldable pub scalar_mul_div_basis_point_round_down : ℕ → ℕ → Result ℕ
scalar_mul_div_basis_point_round_down x multiplier = if multiplier == 0 then ok 0 else (do
  refuse (ltb basis_point_max_u128 multiplier) multiplier_too_large
  let (x1, x2) = decode x
  x1_res ← try_u128 (mul256 x1 multiplier / basis_point_max_u128)
  x2_res ← try_u128 (mul256 x2 multiplier / basis_point_max_u128)
  ok (encode x1_res x2_res))

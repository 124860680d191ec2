-- ===== src/MoeMath/Uint256x256Math.antt =====
-- src/amms/moe/math/uint256x256_math.rs: products of two words, their shifts and their quotients.
pub mod Products
pub mod SquareRoot
use arbitrage_bot_v.Base.{
  ℕ, zero, suc, Bool, true, false, min, ◌+◌, ◌-◌, ◌*◌, ◌/◌, ◌%◌, ◌^◌, ltb, leb, ◌==◌, if◌then◌else◌,
  bit_and, bit_or, bit_xor,
}
use arbitrage_bot_v.Base.Word.{word_mod, add256, sub256, mul256, shl256, shr}
use arbitrage_bot_v.MoeMath.BitMath.{most_significant_bit}
use arbitrage_bot_v.MoeMath.Error.{
  Result, ok, err, panic, ◌>>=◌, unwrap, overflow, division_by_zero,
}

-- `mul_mod`, which is exact, and 0 for the modulus 0.
abbrev pub mul_mod : ℕ → ℕ → ℕ → ℕ
mul_mod x y modulus = if modulus == 0 then 0 else x * y % modulus

-- The low and the high word of a product.
unfoldable pub get_mul_prods : ℕ → ℕ → ℕ × ℕ
get_mul_prods x y =
    let mm = mul_mod x y (word_mod - 1) in
    let prod0 = mul256 x y in (prod0, sub256 (sub256 mm prod0) (if ltb mm prod0 then 1 else 0))

-- `1 << offset`, and `prod1 << (256 - offset)`, which is 0 for the offset 0.
unfoldable pub mul_shift_round_down : ℕ → ℕ → ℕ → Result ℕ
mul_shift_round_down x y offset =
    let (prod0, prod1) = get_mul_prods x y in
    let low = if prod0 == 0 then 0 else shr prod0 offset in
    if prod1 == 0
    then ok low
    else (if leb (shl256 1 offset) prod1
        then err overflow
        else ok (add256 low (shl256 prod1 (256 - offset))))

unfoldable pub mul_shift_round_up : ℕ → ℕ → ℕ → Result ℕ
mul_shift_round_up x y offset = do
  result ← mul_shift_round_down x y offset
  if mul_mod x y (shl256 1 offset) == 0 then ok result else ok (add256 result 1)

-- One step of Newton's iteration for the inverse modulo 2^256.
abbrev refined : ℕ → ℕ → ℕ
refined denominator inverse = mul256 inverse (sub256 2 (mul256 denominator inverse))

-- The quotient of a product of two words, given as `prod1 * 2^256 + prod0`, by a word.
unfoldable pub get_end_of_div_round_down : ℕ → ℕ → ℕ → ℕ → ℕ → Result ℕ
get_end_of_div_round_down x y denominator prod0 prod1 =
    if denominator == 0
    then err division_by_zero
    else if prod1 == 0
    then ok (prod0 / denominator)
    else if leb denominator prod1
    then err overflow
    else (let remainder = mul_mod x y denominator in
        let high = if ltb prod0 remainder then sub256 prod1 1 else prod1 in
        let low = sub256 prod0 remainder in
        let twos = bit_and (sub256 0 denominator) denominator in
        let odd = denominator / twos in
        let flipped = add256 (sub256 0 twos / twos) 1 in
        let joined = bit_or (low / twos) (mul256 high flipped) in
        let start = bit_xor (mul256 3 odd) 2 in
        let inverse =
          refined odd (refined odd (refined odd (refined odd (refined odd (refined odd start))))) in
        ok (mul256 joined inverse))

unfoldable pub mul_div_round_down : ℕ → ℕ → ℕ → Result ℕ
mul_div_round_down x y denominator =
    let (prod0, prod1) = get_mul_prods x y in
    if denominator == 0
    then err division_by_zero
    else get_end_of_div_round_down x y denominator prod0 prod1

unfoldable pub mul_div_round_up : ℕ → ℕ → ℕ → Result ℕ
mul_div_round_up x y denominator = do
  result ← mul_div_round_down x y denominator
  if mul_mod x y denominator == 0 then ok result else ok (add256 result 1)

unfoldable pub shift_div_round_down : ℕ → ℕ → ℕ → Result ℕ
shift_div_round_down x offset denominator =
    if denominator == 0
    then err division_by_zero
    else (let prod1 = if offset == 0 then 0 else shr x (256 - offset) in
        get_end_of_div_round_down x (shl256 1 offset) denominator (shl256 x offset) prod1)

unfoldable pub shift_div_round_up : ℕ → ℕ → ℕ → Result ℕ
shift_div_round_up x offset denominator = do
  result ← shift_div_round_down x offset denominator
  if mul_mod x (shl256 1 offset) denominator == 0 then ok result else ok (add256 result 1)

-- Newton's step for the square root, until it no longer falls; each round lowers the guess, so the
-- rounds that are allowed are the first guess, and running out of them would be a panic here.
unfoldable pub sqrt_loop : ℕ → ℕ → ℕ → Result ℕ
sqrt_loop zero x guess = panic
sqrt_loop (suc rounds) x guess =
    let next = shr (add256 guess (x / guess)) 1 in
    if guess == 0 then panic else elim (leb guess next) [
      | true ↦ ok (min guess (x / guess))
      | false ↦ sqrt_loop rounds x next
    ]

unfoldable pub sqrt : ℕ → Result ℕ
sqrt x = if x == 0 then ok 0 else (do
  msb ← unwrap (most_significant_bit x)
  let guess = shl256 1 (msb / 2 + 1)
  sqrt_loop guess x guess)

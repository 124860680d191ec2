-- ===== src/Tests/MoeBins.antt =====
-- src/amms/moe/math at concrete words: the tree, the searches for a bit, a bin and the square root.
use arbitrage_bot_v.Base.{ℕ, ◌+◌, ◌*◌, ◌^◌, ◌≤◌, ◌<◌, ◌-◌, ◌≡◌, refl, arith, true, false, none, ◌⊎◌}
use arbitrage_bot_v.Base.{suc}
use arbitrage_bot_v.Base.Digit.{digit}
use arbitrage_bot_v.MoeMath.Error.{ok, Gives}
use arbitrage_bot_v.MoeMath.PackedUint128.{encode}
use arbitrage_bot_v.MoeMath.BitMath.{no_bit, closest_bit_right, closest_bit_left}
use arbitrage_bot_v.MoeMath.BitMath.Closest.{
  ZeroBetween, closest_bit_right-nearest, closest_bit_left-nearest,
}
use arbitrage_bot_v.MoeMath.TreeMath.{TreeUint24, contains, add, remove_id}
use arbitrage_bot_v.MoeMath.TreeMath.Members.{update, contains-add, contains-remove_id}
use arbitrage_bot_v.MoeMath.BinHelper.{get_amounts, get_shares_and_effective_amounts_in}
use arbitrage_bot_v.MoeMath.BinHelper.Amounts.{PackedWithin, get_amounts-PackedWithin}
use arbitrage_bot_v.MoeMath.Uint256x256Math.{sqrt}
use arbitrage_bot_v.MoeMath.Uint256x256Math.SquareRoot.{sqrt-IsRoot}
use arbitrage_bot_v.MoeMath.BinHelper.Shares.{NoMore, get_shares_and_effective_amounts_in-NoMore}

abbrev middle_id : ℕ
middle_id = 8_388_608

abbrev empty_tree : TreeUint24
empty_tree = record { level0 = 0; level1 = λ key. none; level2 = λ key. none }

contains-add_example :
    (contains (add empty_tree 300).0 ≡ update (contains empty_tree) 300 true)
    × ((add empty_tree 300).1 ≡ true)
unfolding contains
contains-add_example = contains-add empty_tree 300

contains-remove_id_example :
    (contains (remove_id (add empty_tree 300).0 300).0
      ≡ update (contains (add empty_tree 300).0) 300 false)
    × ((remove_id (add empty_tree 300).0 300).1 ≡ contains (add empty_tree 300).0 300)
contains-remove_id_example = contains-remove_id (add empty_tree 300).0 300

closest_bit_right-nearest_example :
    ((closest_bit_right 0b100100 4 ≡ ok no_bit) × ZeroBetween 0b100100 0 4)
    ⊎ ((r : ℕ) × (closest_bit_right 0b100100 4 ≡ ok r)
        × (r ≤ 4)
        × (digit r 0b100100 ≡ 1)
        × ZeroBetween 0b100100 (suc r) 4)
closest_bit_right-nearest_example = closest_bit_right-nearest 0b100100 4 (omega arith) (omega arith)

closest_bit_left-nearest_example :
    ((closest_bit_left 0b100100 3 ≡ ok no_bit) × ZeroBetween 0b100100 3 255)
    ⊎ ((r : ℕ) × (closest_bit_left 0b100100 3 ≡ ok r)
        × (3 ≤ r)
        × (r < 256)
        × (digit r 0b100100 ≡ 1)
        × ((i : ℕ) → 3 ≤ i → i < r → digit i 0b100100 ≡ 0))
closest_bit_left-nearest_example = closest_bit_left-nearest 0b100100 3 (omega arith) (omega arith)

closest_bits_lem : (closest_bit_right 0b100100 4 ≡ ok 2) × (closest_bit_left 0b100100 3 ≡ ok 5)
unfolding closest_bit_right arbitrage_bot_v.MoeMath.BitMath.most_significant_bit closest_bit_left
    arbitrage_bot_v.MoeMath.BitMath.least_significant_bit
closest_bits_lem = (refl, refl)

abbrev bin_words : ℕ × ℕ
bin_words = (encode 1_000_000 2_000_000, encode 10_000 0)

get_amounts-PackedWithin_example :
    Gives
      (PackedWithin true bin_words.1 bin_words.0)
      (get_amounts bin_words.0 0 20 true middle_id bin_words.1)
get_amounts-PackedWithin_example =
    get_amounts-PackedWithin bin_words.0 0 20 true middle_id bin_words.1

get_amounts_lem :
    get_amounts bin_words.0 0 20 true middle_id bin_words.1
    ≡ ok (encode 10_000 0, encode 0 10_000, 0)
unfolding get_amounts arbitrage_bot_v.MoeMath.PriceHelper.get_price_from_id
    arbitrage_bot_v.MoeMath.Uint128x128Math.pow arbitrage_bot_v.MoeMath.PriceHelper.get_exponent
    arbitrage_bot_v.MoeMath.BinHelper.amounts_of arbitrage_bot_v.MoeMath.BinHelper.max_amount_in
    arbitrage_bot_v.MoeMath.BinHelper.bought arbitrage_bot_v.MoeMath.BinHelper.get_liquidity
    arbitrage_bot_v.MoeMath.BinHelper.get_liquidity_components
    arbitrage_bot_v.MoeMath.Encoded.decode arbitrage_bot_v.MoeMath.Encoded.decode_u16
    arbitrage_bot_v.MoeMath.Encoded.decode_u20 arbitrage_bot_v.MoeMath.Encoded.decode_u24
    arbitrage_bot_v.MoeMath.Encoded.set arbitrage_bot_v.MoeMath.FeeHelper.ensure_fee
    arbitrage_bot_v.MoeMath.FeeHelper.get_fee_amount
    arbitrage_bot_v.MoeMath.FeeHelper.get_fee_amount_from
    arbitrage_bot_v.MoeMath.PackedUint128.decode arbitrage_bot_v.MoeMath.PackedUint128.decode_first
    arbitrage_bot_v.MoeMath.PackedUint128.decode_x arbitrage_bot_v.MoeMath.PackedUint128.decode_y
    arbitrage_bot_v.MoeMath.PairParameters.get_base_factor
    arbitrage_bot_v.MoeMath.PairParameters.get_base_fee
    arbitrage_bot_v.MoeMath.PairParameters.get_total_fee
    arbitrage_bot_v.MoeMath.PairParameters.get_variable_fee
    arbitrage_bot_v.MoeMath.PairParameters.get_variable_fee_control
    arbitrage_bot_v.MoeMath.PairParameters.get_volatility_accumulator
    arbitrage_bot_v.MoeMath.PriceHelper.get_base arbitrage_bot_v.MoeMath.Uint128x128Math.pow_rounds
    arbitrage_bot_v.MoeMath.Uint256x256Math.get_end_of_div_round_down
    arbitrage_bot_v.MoeMath.Uint256x256Math.get_mul_prods
    arbitrage_bot_v.MoeMath.Uint256x256Math.mul_shift_round_down
    arbitrage_bot_v.MoeMath.Uint256x256Math.mul_shift_round_up
    arbitrage_bot_v.MoeMath.Uint256x256Math.shift_div_round_down
    arbitrage_bot_v.MoeMath.Uint256x256Math.shift_div_round_up encode
get_amounts_lem = refl

sqrt-IsRoot_example : (r : ℕ) × (sqrt 99 ≡ ok r) × (r * r ≤ 99) × (99 < (r + 1) * (r + 1))
sqrt-IsRoot_example = sqrt-IsRoot 99 (omega arith)

sqrt_lem : (sqrt 99 ≡ ok 9) × (sqrt (2 ^ 256 - 1) ≡ ok (2 ^ 128 - 1))
unfolding sqrt arbitrage_bot_v.MoeMath.BitMath.most_significant_bit
    arbitrage_bot_v.MoeMath.Uint256x256Math.sqrt_loop
sqrt_lem = (refl, refl)

get_shares_and_effective_amounts_in-NoMore_example :
    Gives
      (λ r. NoMore (encode 30 40) r.1)
      (get_shares_and_effective_amounts_in bin_words.0 (encode 30 40) (2 ^ 128) 1_000)
get_shares_and_effective_amounts_in-NoMore_example =
    get_shares_and_effective_amounts_in-NoMore bin_words.0 (encode 30 40) (2 ^ 128) 1_000

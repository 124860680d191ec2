-- ===== src/MoeMath/BinHelper.antt =====
-- src/amms/moe/math/bin_helper.rs: the reserves of one bin in a swap, a deposit and a withdrawal.
pub mod Amounts
pub mod Shares
use arbitrage_bot_v.Base.{
  ℕ, ◌+◌, ◌-◌, ◌*◌, ◌/◌, ◌%◌, ◌^◌, Bool, true, false, ◌&&◌, ◌||◌, ltb, leb, ◌==◌, if◌then◌else◌,
  min,
}
use arbitrage_bot_v.Base.Word.{add256, sub256, mul256, shl256, shr, u128, limb}
use arbitrage_bot_v.MoeMath.Error.{
  Result, ok, err, panic, ◌>>=◌, ◌>>◌, refuse, liquidity_overflow, max_liquidity_per_bin_exceeded,
  invalid_config,
}
use arbitrage_bot_v.MoeMath.PackedUint128.{
  try_u128, encode, decode, decode_x, decode_y, decode_first,
}
use arbitrage_bot_v.MoeMath.FeeHelper.{get_fee_amount, get_fee_amount_from, get_composition_fee}
use arbitrage_bot_v.MoeMath.PairParameters.{get_total_fee}
use arbitrage_bot_v.MoeMath.PriceHelper.{scale_offset, get_price_from_id}
use arbitrage_bot_v.MoeMath.Uint128x128Math.{scale}
use arbitrage_bot_v.MoeMath.Uint256x256Math.{
  sqrt, mul_div_round_up, mul_div_round_down, mul_shift_round_up, mul_shift_round_down,
  shift_div_round_up, shift_div_round_down,
}

abbrev max_liquidity_per_bin : ℕ
max_liquidity_per_bin =
    10_395_202_414_653 * 2 ^ 192
    + 16_199_717_119_757_969_306 * 2 ^ 128
    + 14_574_905_401_537_909_530 * 2 ^ 64
    + 7_868_752_419_796_399_633

-- The part of one reserve that a share of the supply is worth.
abbrev out_of_reserve : ℕ → ℕ → ℕ → Result ℕ
out_of_reserve reserve amount_to_burn total_supply =
    if reserve == 0
    then ok 0
    else (do val ← mul_div_round_down amount_to_burn reserve total_supply; try_u128 val)

unfoldable pub get_amount_out_of_bin : ℕ → ℕ → ℕ → Result ℕ
get_amount_out_of_bin bin_reserves amount_to_burn total_supply = do
  let reserves = decode bin_reserves
  amount_x_out ← out_of_reserve reserves.0 amount_to_burn total_supply
  amount_y_out ← out_of_reserve reserves.1 amount_to_burn total_supply
  ok (encode amount_x_out amount_y_out)

unfoldable pub get_liquidity_components : ℕ → ℕ → ℕ → Result ℕ
get_liquidity_components x y price =
    let product = mul256 price x in
    let liquidity = if x == 0 then 0 else product in
    let scaled_y = shl256 y scale_offset in
    let sum = add256 liquidity scaled_y in
    if ltb 0 x && (ltb (product / x) price || ltb price (product / x))
    then err liquidity_overflow
    else if y == 0
    then ok liquidity
    else if ltb sum scaled_y
    then err liquidity_overflow
    else ok sum

unfoldable pub get_liquidity : ℕ → ℕ → Result ℕ
get_liquidity amounts price = let (x, y) = decode amounts in get_liquidity_components x y price

-- The amounts of a deposit less what its rounded shares leave unused. A difference is cut to its
-- low limb where it leaves the amount.
abbrev pub less_y : (delta y : ℕ) → ℕ × ℕ
less_y delta y =
    let delta_y = min (shr delta scale_offset) y in
    if leb scale delta
    then (u128 (y + 2 ^ 128 - limb 0 delta_y), sub256 delta (shl256 delta_y scale_offset))
    else (y, delta)

abbrev pub less_x : (delta x price : ℕ) → Result ℕ
less_x delta x price =
    if leb price delta
    then (if price == 0 then panic else ok (u128 (x + 2 ^ 128 - limb 0 (min (delta / price) x))))
    else ok x

abbrev pub effective_in : (amounts_in user_liquidity effective_liquidity price : ℕ) → Result ℕ
effective_in amounts_in user_liquidity effective_liquidity price =
    let (x, y) = decode amounts_in in
    let left = less_y (user_liquidity - effective_liquidity) y in
    if ltb effective_liquidity user_liquidity
    then (do x' ← less_x left.1 x price; ok (encode x' left.0))
    else ok amounts_in

-- The shares of a deposit in a bin that has a supply.
abbrev pub shares_of :
    (bin_reserves amounts_in price total_supply user_liquidity bin_liquidity : ℕ) → Result (ℕ × ℕ)
shares_of bin_reserves amounts_in price total_supply user_liquidity bin_liquidity = do
  shares ← mul_div_round_down user_liquidity total_supply bin_liquidity
  effective_liquidity ← mul_div_round_up shares bin_liquidity total_supply
  amounts ← effective_in amounts_in user_liquidity effective_liquidity price
  new_liquidity ← get_liquidity (add256 bin_reserves amounts) price
  refuse (ltb max_liquidity_per_bin new_liquidity) max_liquidity_per_bin_exceeded
  ok (shares, amounts)

unfoldable pub get_shares_and_effective_amounts_in : ℕ → ℕ → ℕ → ℕ → Result (ℕ × ℕ)
get_shares_and_effective_amounts_in bin_reserves amounts_in price total_supply = do
  let amounts = decode amounts_in
  user_liquidity ← get_liquidity_components amounts.0 amounts.1 price
  if user_liquidity == 0 then ok (0, 0) else (do
    bin_liquidity ← get_liquidity bin_reserves price
    if (bin_liquidity == 0) || (total_supply == 0)
        then (do root ← sqrt user_liquidity; ok (root, amounts_in))
        else shares_of bin_reserves amounts_in price total_supply user_liquidity bin_liquidity)

-- `lower` has 128 bits, so the second test is never true.
unfoldable pub verify_amounts : ℕ → ℕ → ℕ → Result (Unit {0})
verify_amounts amounts active_id id =
    let upper = shr amounts 128 in
    let lower = u128 amounts in
    refuse ((ltb id active_id && ltb 0 upper) || (ltb active_id id && ltb (2 ^ 128 - 1) lower))
      invalid_config

unfoldable pub get_composition_fees : ℕ → ℕ → ℕ → ℕ → ℕ → ℕ → Result ℕ
get_composition_fees bin_reserves parameters bin_step amounts_in total_supply shares =
    let (amount_x, amount_y) = decode amounts_in in
    if shares == 0 then ok 0 else (do
      encoded_out ←
          get_amount_out_of_bin (add256 bin_reserves amounts_in) shares (add256 total_supply shares)
      let received = decode encoded_out
      total_fee ← get_total_fee parameters bin_step
      if ltb amount_x received.0
          then (do
            fee_y ← get_composition_fee (u128 (amount_y + 2 ^ 128 - received.1)) total_fee
            ok (encode 0 fee_y))
          else if ltb amount_y received.1
          then (do
            fee_x ← get_composition_fee (u128 (amount_x + 2 ^ 128 - received.0)) total_fee
            ok (encode fee_x 0))
          else ok 0)

unfoldable pub is_empty : ℕ → Bool → Bool
is_empty bin_reserves is_x = if is_x then decode_x bin_reserves == 0 else decode_y bin_reserves == 0

-- The most that the reserve of a bin is worth, and what an input net of its fee buys.
unfoldable pub max_amount_in : Bool → ℕ → ℕ → Result ℕ
max_amount_in swap_for_y price bin_reserve_out = do
  raw ←
      if swap_for_y
      then shift_div_round_up bin_reserve_out scale_offset price
      else mul_shift_round_up bin_reserve_out price scale_offset
  try_u128 raw

unfoldable pub bought : Bool → ℕ → ℕ → Result ℕ
bought swap_for_y price amount_in_net = do
  raw ←
      if swap_for_y
      then mul_shift_round_down amount_in_net price scale_offset
      else shift_div_round_down amount_in_net scale_offset price
  try_u128 raw

-- The input with its fee, the output and the fee of a swap in one bin.
unfoldable pub amounts_of : Bool → (price bin_reserve_out : ℕ) → Result ℕ → ℕ → Result (ℕ × ℕ × ℕ)
amounts_of swap_for_y price bin_reserve_out read_fee amount_in = do
  most ← max_amount_in swap_for_y price bin_reserve_out
  total_fee ← read_fee
  max_fee ← get_fee_amount most total_fee
  let max_amount_in_total = u128 (most + max_fee)
  if leb max_amount_in_total amount_in
      then ok (max_amount_in_total, bin_reserve_out, max_fee)
      else (do
        fee ← get_fee_amount_from amount_in total_fee
        raw_out ← bought swap_for_y price (u128 (amount_in + 2 ^ 128 - fee))
        ok (amount_in, min raw_out bin_reserve_out, fee))

-- Amounts of the token that goes in, and of the one that goes out.
abbrev pub packed_in : Bool → ℕ → ℕ
packed_in swap_for_y amount = if swap_for_y then encode amount 0 else encode 0 amount

abbrev pub packed_out : Bool → ℕ → ℕ
packed_out swap_for_y amount = if swap_for_y then encode 0 amount else encode amount 0

unfoldable pub get_amounts : ℕ → ℕ → ℕ → Bool → ℕ → ℕ → Result (ℕ × ℕ × ℕ)
get_amounts bin_reserves parameters bin_step swap_for_y active_id amounts_in_left = do
  price ← get_price_from_id active_id bin_step
  let bin_reserve_out = if swap_for_y then decode_y bin_reserves else decode_x bin_reserves
  amounts ←
      amounts_of swap_for_y price bin_reserve_out (get_total_fee parameters bin_step)
        (decode_first amounts_in_left swap_for_y)
  let amounts_in_with_fees = packed_in swap_for_y amounts.0
  let amounts_out_of_bin = packed_out swap_for_y amounts.1
  new_liquidity ←
      get_liquidity (sub256 (add256 bin_reserves amounts_in_with_fees) amounts_out_of_bin) price
  refuse (ltb max_liquidity_per_bin new_liquidity) max_liquidity_per_bin_exceeded
  ok (amounts_in_with_fees, amounts_out_of_bin, packed_in swap_for_y amounts.2)

-- What came in beyond the reserves; the difference wraps, and must fit 128 bits.
unfoldable pub received : ℕ → ℕ → ℕ → Result ℕ
received reserves balance_x balance_y = do
  let held = decode reserves
  amount_x ← try_u128 (sub256 balance_x held.0)
  amount_y ← try_u128 (sub256 balance_y held.1)
  ok (encode amount_x amount_y)

unfoldable pub received_x : ℕ → ℕ → Result ℕ
received_x reserves balance_x = do
  amount_x ← try_u128 (sub256 balance_x (decode_x reserves))
  ok (encode amount_x 0)

unfoldable pub received_y : ℕ → ℕ → Result ℕ
received_y reserves balance_y = do
  amount_y ← try_u128 (sub256 balance_y (decode_y reserves))
  ok (encode 0 amount_y)

unfoldable pub combine : ℕ → ℕ → Result ℕ
combine x y = ok (encode (decode_x x) (decode_y y))

-- ===== src/Tests/MoePools.antt =====
-- Pairs of the Liquidity Book, and runs over their bins.
use arbitrage_bot_v.Base.{ℕ, ◌+◌, ◌*◌, ◌^◌, ◌∷◌, ◌-◌, ◌≡◌, refl, arith, true, [], ◌⊎◌}
use arbitrage_bot_v.Base.AssocMap.{put}
use arbitrage_bot_v.Base.Outcome.{Outcome, panicked, failed, done, Holds}
use arbitrage_bot_v.MoeMath.PackedUint128.{encode}
use arbitrage_bot_v.MoeMath.BinHelper.{get_amounts, get_shares_and_effective_amounts_in}
use arbitrage_bot_v.MoePool.{BinReserve, MoeLbPair, MoeError}
use arbitrage_bot_v.MoePool.Bins.Sums.{IsSum}
use arbitrage_bot_v.MoePool.Bins.{update_bin}
use arbitrage_bot_v.MoePool.Swaps.Sums.{simulate_swap_precise-IsSum, sync-IsSum}
use arbitrage_bot_v.MoeMath.Uint256x256Math.{sqrt}
use arbitrage_bot_v.MoePool.Swaps.{
  sync, PairLog, deposited_to_bins, simulate_swap_precise, simulate_swap_mut,
}
use arbitrage_bot_v.MoePool.Swaps.Conserving.{reserve_out, simulate_swap_precise-conserves}
use arbitrage_bot_v.MoePool.Swaps.Twice.{simulate_swap_mut-twice}

abbrev middle_id : ℕ
middle_id = 8_388_608

-- A pair with one bin, at the price 1.
abbrev one_bin : MoeLbPair
one_bin = record {
  address = 1;
  token_x = record { address = 10; decimals = 18 };
  token_y = record { address = 20; decimals = 18 };
  bin_step = 20;
  active_id = middle_id;
  reserve_x = 1_000_000;
  reserve_y = 2_000_000;
  base_factor = 5_000;
  filter_period = 30;
  decay_period = 600;
  reduction_factor = 5_000;
  variable_fee_control = 40_000;
  protocol_share_bps = 1_000;
  max_volatility_acc = 350_000;
  volatility_accumulator = 0;
  volatility_reference = 0;
  id_reference = middle_id;
  time_of_last_update = 1_000;
  bins = put [] middle_id (record { reserve_x = 1_000_000; reserve_y = 2_000_000 });
}

abbrev swap_x : Outcome MoeError (MoeLbPair × ℕ)
swap_x = simulate_swap_precise one_bin true 10_000 2_000

abbrev swapped_of : Outcome MoeError (MoeLbPair × ℕ) → ℕ × ℕ × ℕ
swapped_of (done r) = (r.0.reserve_x, r.0.reserve_y, r.1)
swapped_of (failed e) = (0, 0, 0)
swapped_of panicked = (0, 0, 0)

swap_x_lem : swapped_of swap_x ≡ (1_009_999, 1_990_010, 9_990)
unfolding simulate_swap_precise arbitrage_bot_v.MoePool.Swaps.swap_bins
    arbitrage_bot_v.MoePool.Swaps.round arbitrage_bot_v.MoePool.Bins.simulate_single_bin
    arbitrage_bot_v.MoePool.Bins.compute_bin_swap
    arbitrage_bot_v.MoePool.Parameters.packed_parameters
    arbitrage_bot_v.MoeMath.PairParameters.set_static_fee_parameters
    arbitrage_bot_v.MoePool.Parameters.update_volatility_accumulator
    arbitrage_bot_v.MoePool.Parameters.update_references
    arbitrage_bot_v.MoePool.Parameters.from_pair
    arbitrage_bot_v.MoeMath.PairParameters.set_volatility_accumulator
    arbitrage_bot_v.MoeMath.PairParameters.set_volatility_reference
    arbitrage_bot_v.MoeMath.PairParameters.set_active_id
    arbitrage_bot_v.MoeMath.PairParameters.set_id_reference
    arbitrage_bot_v.MoeMath.PairParameters.static_fields arbitrage_bot_v.MoePool.Bins.booked
    arbitrage_bot_v.MoePool.Parameters.protocol_fee_amount_u256
    arbitrage_bot_v.MoePool.Parameters.write_back arbitrage_bot_v.MoePool.Swaps.next_id get_amounts
    arbitrage_bot_v.MoeMath.PriceHelper.get_price_from_id
    arbitrage_bot_v.MoeMath.Uint128x128Math.pow arbitrage_bot_v.MoeMath.PriceHelper.get_exponent
    arbitrage_bot_v.MoeMath.BinHelper.amounts_of arbitrage_bot_v.MoeMath.BinHelper.max_amount_in
    arbitrage_bot_v.MoeMath.BinHelper.bought arbitrage_bot_v.MoeMath.BinHelper.get_liquidity
    arbitrage_bot_v.MoeMath.BinHelper.get_liquidity_components
    arbitrage_bot_v.MoeMath.Encoded.decode arbitrage_bot_v.MoeMath.Encoded.decode_u16
    arbitrage_bot_v.MoeMath.Encoded.decode_u20 arbitrage_bot_v.MoeMath.Encoded.decode_u24
    arbitrage_bot_v.MoeMath.Encoded.set arbitrage_bot_v.MoeMath.FeeHelper.ensure_fee
    arbitrage_bot_v.MoeMath.FeeHelper.get_fee_amount
    arbitrage_bot_v.MoeMath.FeeHelper.get_fee_amount_from
    arbitrage_bot_v.MoeMath.PackedUint128.decode arbitrage_bot_v.MoeMath.PackedUint128.decode_first
    arbitrage_bot_v.MoeMath.PackedUint128.decode_x arbitrage_bot_v.MoeMath.PackedUint128.decode_y
    arbitrage_bot_v.MoeMath.PairParameters.get_base_factor
    arbitrage_bot_v.MoeMath.PairParameters.get_base_fee
    arbitrage_bot_v.MoeMath.PairParameters.get_total_fee
    arbitrage_bot_v.MoeMath.PairParameters.get_variable_fee
    arbitrage_bot_v.MoeMath.PairParameters.get_variable_fee_control
    arbitrage_bot_v.MoeMath.PairParameters.get_volatility_accumulator
    arbitrage_bot_v.MoeMath.PriceHelper.get_base arbitrage_bot_v.MoeMath.Uint128x128Math.pow_rounds
    arbitrage_bot_v.MoeMath.Uint256x256Math.get_end_of_div_round_down
    arbitrage_bot_v.MoeMath.Uint256x256Math.get_mul_prods
    arbitrage_bot_v.MoeMath.Uint256x256Math.mul_shift_round_down
    arbitrage_bot_v.MoeMath.Uint256x256Math.mul_shift_round_up
    arbitrage_bot_v.MoeMath.Uint256x256Math.shift_div_round_down
    arbitrage_bot_v.MoeMath.Uint256x256Math.shift_div_round_up encode
swap_x_lem = refl

simulate_swap_precise-conserves_example : Holds (λ r. reserve_out true r.0 + r.1 ≡ 2_000_000) swap_x
simulate_swap_precise-conserves_example =
    simulate_swap_precise-conserves one_bin true 10_000 2_000 (omega arith)

abbrev swap_x_mut : Outcome MoeError (MoeLbPair × ℕ)
swap_x_mut = simulate_swap_mut one_bin 10 20 10_000

swap_x_mut_lem : swapped_of swap_x_mut ≡ (1_019_999, 1_980_020, 9_990)
unfolding simulate_swap_mut arbitrage_bot_v.MoePool.Swaps.simulate_swap_across_bins
    arbitrage_bot_v.MoePool.Swaps.unrealistic simulate_swap_precise
    arbitrage_bot_v.MoePool.Swaps.swap_bins arbitrage_bot_v.MoePool.Swaps.round
    arbitrage_bot_v.MoePool.Bins.simulate_single_bin arbitrage_bot_v.MoePool.Bins.compute_bin_swap
    arbitrage_bot_v.MoePool.Parameters.packed_parameters
    arbitrage_bot_v.MoeMath.PairParameters.set_static_fee_parameters
    arbitrage_bot_v.MoePool.Parameters.update_volatility_accumulator
    arbitrage_bot_v.MoePool.Parameters.update_references
    arbitrage_bot_v.MoePool.Parameters.from_pair
    arbitrage_bot_v.MoeMath.PairParameters.set_volatility_accumulator
    arbitrage_bot_v.MoeMath.PairParameters.set_volatility_reference
    arbitrage_bot_v.MoeMath.PairParameters.set_active_id
    arbitrage_bot_v.MoeMath.PairParameters.set_id_reference
    arbitrage_bot_v.MoeMath.PairParameters.static_fields arbitrage_bot_v.MoePool.Bins.booked
    arbitrage_bot_v.MoePool.Parameters.protocol_fee_amount_u256
    arbitrage_bot_v.MoePool.Parameters.write_back arbitrage_bot_v.MoePool.Swaps.next_id get_amounts
    arbitrage_bot_v.MoeMath.PriceHelper.get_price_from_id
    arbitrage_bot_v.MoeMath.Uint128x128Math.pow arbitrage_bot_v.MoeMath.PriceHelper.get_exponent
    arbitrage_bot_v.MoeMath.BinHelper.amounts_of arbitrage_bot_v.MoeMath.BinHelper.max_amount_in
    arbitrage_bot_v.MoeMath.BinHelper.bought arbitrage_bot_v.MoeMath.BinHelper.get_liquidity
    arbitrage_bot_v.MoeMath.BinHelper.get_liquidity_components
    arbitrage_bot_v.MoeMath.Encoded.decode arbitrage_bot_v.MoeMath.Encoded.decode_u16
    arbitrage_bot_v.MoeMath.Encoded.decode_u20 arbitrage_bot_v.MoeMath.Encoded.decode_u24
    arbitrage_bot_v.MoeMath.Encoded.set arbitrage_bot_v.MoeMath.FeeHelper.ensure_fee
    arbitrage_bot_v.MoeMath.FeeHelper.get_fee_amount
    arbitrage_bot_v.MoeMath.FeeHelper.get_fee_amount_from
    arbitrage_bot_v.MoeMath.PackedUint128.decode arbitrage_bot_v.MoeMath.PackedUint128.decode_first
    arbitrage_bot_v.MoeMath.PackedUint128.decode_x arbitrage_bot_v.MoeMath.PackedUint128.decode_y
    arbitrage_bot_v.MoeMath.PairParameters.get_base_factor
    arbitrage_bot_v.MoeMath.PairParameters.get_base_fee
    arbitrage_bot_v.MoeMath.PairParameters.get_total_fee
    arbitrage_bot_v.MoeMath.PairParameters.get_variable_fee
    arbitrage_bot_v.MoeMath.PairParameters.get_variable_fee_control
    arbitrage_bot_v.MoeMath.PairParameters.get_volatility_accumulator
    arbitrage_bot_v.MoeMath.PriceHelper.get_base arbitrage_bot_v.MoeMath.Uint128x128Math.pow_rounds
    arbitrage_bot_v.MoeMath.Uint256x256Math.get_end_of_div_round_down
    arbitrage_bot_v.MoeMath.Uint256x256Math.get_mul_prods
    arbitrage_bot_v.MoeMath.Uint256x256Math.mul_shift_round_down
    arbitrage_bot_v.MoeMath.Uint256x256Math.mul_shift_round_up
    arbitrage_bot_v.MoeMath.Uint256x256Math.shift_div_round_down
    arbitrage_bot_v.MoeMath.Uint256x256Math.shift_div_round_up encode
swap_x_mut_lem = refl

simulate_swap_mut-twice_example :
    Holds (λ r. (r.1 ≡ 0) ⊎ (reserve_out true r.0 ≡ 2_000_000 - 2 * r.1)) swap_x_mut
simulate_swap_mut-twice_example = simulate_swap_mut-twice one_bin 10 20 10_000 refl (omega arith)

one_bin-IsSum : IsSum one_bin
one_bin-IsSum = ((refl, tt), refl, refl)

simulate_swap_precise-IsSum_example : Holds (λ r. IsSum r.0) swap_x
simulate_swap_precise-IsSum_example =
    simulate_swap_precise-IsSum one_bin true 10_000 2_000 one_bin-IsSum

-- A deposit of 5 and 7 in the bin in the middle and of 11 in the one above.
abbrev two_deposits : PairLog
two_deposits =
    deposited_to_bins (middle_id ∷ (middle_id + 1) ∷ []) ((5 * 2 ^ 128 + 7) ∷ (11 * 2 ^ 128) ∷ [])

sync-IsSum_example : Holds IsSum (sync two_deposits one_bin)
unfolding update_bin
sync-IsSum_example =
    sync-IsSum two_deposits one_bin ((omega arith, omega arith), ((omega arith, omega arith), tt))
      one_bin-IsSum

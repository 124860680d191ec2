-- ===== src/MoePool/Bins.antt =====
-- src/amms/moe/mod.rs: a swap within one bin of a pair, and deposits and withdrawals.
pub mod Exchanging
pub mod Sums
pub mod Deposits
use arbitrage_bot_v.Base.{
  ℕ, ◌+◌, ◌-◌, ◌^◌, Bool, true, false, ◌&&◌, ◌||◌, not, List, [], ◌∷◌, Option, none, some, ltb, leb,
  ◌==◌, if◌then◌else◌,
}
use arbitrage_bot_v.Base.AssocMap.{AssocMap, get, put, delete}
use arbitrage_bot_v.Base.Outcome.{Outcome, panicked, failed, done, ◌>>=◌}
use arbitrage_bot_v.Base.Signed.{saturating_add_u128, saturating_sub_u128}
use arbitrage_bot_v.Base.Word.{u128, shr}
use arbitrage_bot_v.MoeMath.Error.{Result, ok, err, panic}
use arbitrage_bot_v.MoeMath.PackedUint128.{encode, decode_x, decode_y}
use arbitrage_bot_v.MoeMath.BinHelper.{get_amounts}
use arbitrage_bot_v.MoePool.{
  BinReserve, MoeLbPair, MoeError, arithmetic, insufficient_liquidity, default_bin,
  max_reasonable_reserve,
}
use arbitrage_bot_v.MoePool.Parameters.{Parameters, protocol_fee_amount_u256, packed_parameters}

pub record BinSwapResult : Type 0 where
  pub amount_in_with_fee : ℕ
  pub amount_out : ℕ
  pub fee_paid : ℕ
  pub protocol_fee : ℕ
  pub bin_exhausted : Bool

-- `.map_err(|_| MoeError::Arithmetic)`.
abbrev pub or_arithmetic {ℓ} : {A : Type ℓ} → Result A → Outcome MoeError A
or_arithmetic panic = panicked
or_arithmetic (err e) = failed arithmetic
or_arithmetic (ok x) = done x

abbrev pub as_u128 : ℕ → Outcome MoeError ℕ
as_u128 x = if ltb x (2 ^ 128) then done x else failed arithmetic

abbrev pub checked_add : ℕ → ℕ → Outcome MoeError ℕ
checked_add a b = if ltb (a + b) (2 ^ 128) then done (a + b) else failed arithmetic

abbrev pub checked_sub : ℕ → ℕ → MoeError → Outcome MoeError ℕ
checked_sub a b e = if leb b a then done (a - b) else failed e

abbrev half_of : Bool → ℕ → ℕ
half_of first word = if first then decode_x word else decode_y word

-- The input with its fee, the output, the fee, and whether the bin is exhausted.
abbrev pub bin_swap :
    MoeLbPair → Parameters → ℕ → Bool → ℕ → Option BinReserve → Outcome MoeError (ℕ × ℕ × ℕ × Bool)
bin_swap pair params bin_id swap_for_y amount_left none = done (0, 0, 0, true)
bin_swap pair params bin_id swap_for_y amount_left (some bin) =
    if bin.reserve_x == 0 || bin.reserve_y == 0 then done (0, 0, 0, true) else (do
      parameters_u256 ← or_arithmetic (packed_parameters params)
      let packed_reserves = encode bin.reserve_x bin.reserve_y
      left ← as_u128 amount_left
      let input_encoded = if swap_for_y then encode left 0 else encode 0 left
      amounts ← or_arithmetic (
          get_amounts packed_reserves parameters_u256 pair.bin_step swap_for_y bin_id input_encoded)
      let amount_out = half_of (not swap_for_y) amounts.1
      done (
        half_of swap_for_y amounts.0,
        amount_out,
        half_of swap_for_y amounts.2,
        amount_out == (if swap_for_y then bin.reserve_y else bin.reserve_x),
      ))

unfoldable pub compute_bin_swap :
    MoeLbPair → Parameters → ℕ → Bool → ℕ → Outcome MoeError (ℕ × ℕ × ℕ × Bool)
compute_bin_swap pair params bin_id swap_for_y amount_left =
    bin_swap pair params bin_id swap_for_y amount_left (get pair.bins bin_id)

-- The reserves of a bin or of the pair: `paid` comes in and `taken` goes out.
abbrev pub exchanged : Bool → (paid taken : ℕ) → ℕ × ℕ → Outcome MoeError (ℕ × ℕ)
exchanged true paid taken (x, y) = do
  x' ← checked_add x paid
  y' ← checked_sub y taken insufficient_liquidity
  done (x', y')
exchanged false paid taken (x, y) = do
  y' ← checked_add y paid
  x' ← checked_sub x taken insufficient_liquidity
  done (x', y')

-- A bin that both its reserves have left is removed.
abbrev pub stored_bin : AssocMap BinReserve → ℕ → ℕ × ℕ → AssocMap BinReserve
stored_bin bins bin_id (x, y) =
    if (x == 0) && (y == 0)
    then delete bins bin_id
    else put bins bin_id (record { reserve_x = x; reserve_y = y })

abbrev pub bin_or_default : Option BinReserve → BinReserve
bin_or_default none = default_bin
bin_or_default (some bin) = bin

-- The reserves after a swap of a bin that gives an output.
unfoldable pub booked :
    MoeLbPair
    → Parameters
    → ℕ
    → Bool
    → ℕ × ℕ × ℕ × Bool
    → Outcome MoeError (MoeLbPair × BinSwapResult)
booked pair parameters bin_id swap_for_y (amount_in_with_fee, amount_out, fee_paid, bin_exhausted) =
    do
      let bin = bin_or_default (get pair.bins bin_id)
      taken ← as_u128 amount_out
      paid ← as_u128 amount_in_with_fee
      let protocol_fee = protocol_fee_amount_u256 parameters fee_paid
      kept ← as_u128 protocol_fee
      amount_after_protocol ← checked_sub paid kept arithmetic
      of_bin ← exchanged swap_for_y amount_after_protocol taken (bin.reserve_x, bin.reserve_y)
      of_pair ← exchanged swap_for_y amount_after_protocol taken (pair.reserve_x, pair.reserve_y)
      done (
        record pair {
          reserve_x = of_pair.0;
          reserve_y = of_pair.1;
          bins = stored_bin pair.bins bin_id of_bin;
        },
        record {
          amount_in_with_fee = amount_in_with_fee;
          amount_out = amount_out;
          fee_paid = fee_paid;
          protocol_fee = protocol_fee;
          bin_exhausted = bin_exhausted;
        },
      )

unfoldable pub simulate_single_bin :
    MoeLbPair → Parameters → ℕ → Bool → ℕ → Outcome MoeError (MoeLbPair × BinSwapResult)
simulate_single_bin pair parameters bin_id swap_for_y amount_in = do
  swapped ← compute_bin_swap pair parameters bin_id swap_for_y amount_in
  if swapped.1 == 0
      then done (
        pair,
        record {
          amount_in_with_fee = 0;
          amount_out = 0;
          fee_paid = 0;
          protocol_fee = 0;
          bin_exhausted = swapped.3;
        },
      )
      else booked pair parameters bin_id swap_for_y swapped

-- A word of an event has its first amount in the upper half.
abbrev pub event_amounts : ℕ → ℕ × ℕ
event_amounts word = (shr word 128, u128 word)

-- One entry of `update_bins`; an amount beyond reason leaves the pair as it is.
unfoldable pub update_bin : Bool → ℕ → ℕ → MoeLbPair → MoeLbPair
update_bin is_deposit bin_id amount p =
    let (amount_x, amount_y) = event_amounts amount in
    let bin = bin_or_default (get p.bins bin_id) in
    if ltb max_reasonable_reserve amount_x || ltb max_reasonable_reserve amount_y
    then p
    else if is_deposit
    then record p {
      reserve_x = saturating_add_u128 p.reserve_x amount_x;
      reserve_y = saturating_add_u128 p.reserve_y amount_y;
      bins = put p.bins bin_id (record {
        reserve_x = saturating_add_u128 bin.reserve_x amount_x;
        reserve_y = saturating_add_u128 bin.reserve_y amount_y;
      });
    }
    else record p {
      reserve_x = saturating_sub_u128 p.reserve_x amount_x;
      reserve_y = saturating_sub_u128 p.reserve_y amount_y;
      bins =
          stored_bin p.bins bin_id (
            saturating_sub_u128 bin.reserve_x amount_x,
            saturating_sub_u128 bin.reserve_y amount_y,
          );
    }

-- The ids and the amounts go in pairs, as far as both last; an id above 32 bits panics.
unfoldable pub update_bins : Bool → List ℕ → List ℕ → MoeLbPair → Outcome MoeError MoeLbPair
update_bins is_deposit [] amounts p = done p
update_bins is_deposit (id ∷ ids) [] p = done p
update_bins is_deposit (id ∷ ids) (amount ∷ amounts) p =
    if ltb id (2 ^ 32)
    then update_bins is_deposit ids amounts (update_bin is_deposit id amount p)
    else panicked

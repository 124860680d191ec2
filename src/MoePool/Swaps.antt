-- ===== src/MoePool/Swaps.antt =====
-- src/amms/moe/mod.rs: the swap over the bins of a pair, its sanity checks, and the events.
pub mod Keeping
pub mod Conserving
pub mod Sums
pub mod Twice
use arbitrage_bot_v.Base.{
  ℕ, zero, suc, ◌+◌, ◌-◌, ◌*◌, ◌/◌, ◌%◌, ◌^◌, Bool, true, false, ◌&&◌, ◌||◌, not, List, [], ◌∷◌,
  Option, none, some, ltb, leb, ◌==◌, if◌then◌else◌, min,
}
use arbitrage_bot_v.Base.AssocMap.{AssocMap, contains_key, is_empty}
use arbitrage_bot_v.Base.Outcome.{Outcome, panicked, failed, done, ◌>>=◌}
use arbitrage_bot_v.Base.Signed.{saturating_add_u128, saturating_sub_u128}
use arbitrage_bot_v.Base.Word.{mul256, add256, word_mod}
use arbitrage_bot_v.MoePool.{
  MoeLbPair, MoeError, decode_error, unrecognized_event_signature, max_reasonable_reserve,
  max_iterations,
}
use arbitrage_bot_v.MoePool.Parameters.{
  Parameters, from_pair, update_references, update_volatility_accumulator, write_back,
}
use arbitrage_bot_v.MoePool.Bins.{BinSwapResult, simulate_single_bin, update_bins}

-- The variables of the loop over the bins.
pub record LoopState : Type 0 where
  pub pair : MoeLbPair
  pub parameters : Parameters
  pub amount_left : ℕ
  pub amount_out : ℕ
  pub current_id : ℕ
  pub visited_bins : List ℕ

-- How a round ends: with a `break`, or in the next round.
pub data Round : Type 0 where
  stop go : LoopState → Round

unfoldable pub next_id : ℕ → Bool → ℕ
next_id id swap_for_y = if swap_for_y then id - 1 else min (id + 1) (2 ^ 32 - 1)

abbrev pub visited : ℕ → List ℕ → Bool
visited id [] = false
visited id (x ∷ xs) = if id == x then true else visited id xs

-- The move to the next bin, which ends the loop at a boundary or at a bin that was visited.
abbrev pub advance : Bool → LoopState → Round
advance swap_for_y s =
    let next_bin_id = next_id s.current_id swap_for_y in
    if (next_bin_id == s.current_id) || visited next_bin_id s.visited_bins
    then stop s
    else go (record s { current_id = next_bin_id; visited_bins = next_bin_id ∷ s.visited_bins })

-- `saturating_add` on U256.
abbrev pub saturating_add_u256 : ℕ → ℕ → ℕ
saturating_add_u256 a b = min (a + b) (word_mod - 1)

-- The round after the swap in its bin.
abbrev pub settled : Bool → LoopState → MoeLbPair × BinSwapResult → Round
settled swap_for_y s (pair, result) =
    let paid = record s {
      pair = pair;
      amount_out =
          if result.amount_out == 0
          then s.amount_out
          else saturating_add_u256 s.amount_out result.amount_out;
    } in
    let left = record paid {
      amount_left =
          if result.amount_in_with_fee == 0
          then s.amount_left
          else s.amount_left - result.amount_in_with_fee;
    } in
    if not (result.amount_in_with_fee == 0) && leb s.amount_left result.amount_in_with_fee
    then stop (record paid { amount_left = 0 })
    else if result.bin_exhausted || (result.amount_out == 0)
    then advance swap_for_y left
    else stop left

unfoldable pub round : Bool → LoopState → Outcome MoeError Round
round swap_for_y s =
    let accumulated = record s {
      parameters = update_volatility_accumulator s.parameters s.current_id;
    } in
    if contains_key s.pair.bins s.current_id
    then (do
      swapped ←
          simulate_single_bin s.pair accumulated.parameters s.current_id swap_for_y s.amount_left
      done (settled swap_for_y accumulated swapped))
    else done (advance swap_for_y s)

abbrev pub next_round :
    (LoopState → Outcome MoeError LoopState) → Outcome MoeError Round → Outcome MoeError LoopState
next_round again panicked = panicked
next_round again (failed e) = failed e
next_round again (done (stop s)) = done s
next_round again (done (go s)) = again s

-- At most `rounds` rounds, as the counter of the loop has it.
unfoldable pub swap_bins : ℕ → Bool → LoopState → Outcome MoeError LoopState
swap_bins zero swap_for_y s = done s
swap_bins (suc rounds) swap_for_y s =
    if s.amount_left == 0
    then done s
    else next_round (swap_bins rounds swap_for_y) (round swap_for_y s)

abbrev pub first_state : MoeLbPair → ℕ → ℕ → LoopState
first_state pair amount_left timestamp = record {
  pair = pair;
  parameters = update_references (from_pair pair) timestamp;
  amount_left = amount_left;
  amount_out = 0;
  current_id = pair.active_id;
  visited_bins = [];
}

unfoldable pub simulate_swap_precise : MoeLbPair → Bool → ℕ → ℕ → Outcome MoeError (MoeLbPair × ℕ)
simulate_swap_precise pair swap_for_y amount_left timestamp =
    if is_empty pair.bins then done (pair, 0) else (do
      s ← swap_bins max_iterations swap_for_y (first_state pair amount_left timestamp)
      done (write_back s.parameters s.pair, s.amount_out))

-- Outputs that are refused: above the reserve, or too many times the input.
unfoldable pub unrealistic : MoeLbPair → Bool → ℕ → ℕ → Bool
unrealistic p swap_for_y amount_in amount_out =
    ltb (if swap_for_y then p.reserve_y else p.reserve_x) amount_out
    || (ltb (mul256 amount_in 1000) amount_out
        || (ltb amount_in 1_000_000_000_000_000 && ltb (mul256 amount_in 100) amount_out))

unfoldable pub simulate_swap_across_bins :
    MoeLbPair → Bool → ℕ → ℕ → Outcome MoeError (MoeLbPair × ℕ)
simulate_swap_across_bins p swap_for_y amount_in timestamp =
    if amount_in == 0
    then done (p, 0)
    else if (p.reserve_x == 0) || (p.reserve_y == 0)
    then done (p, 0)
    else if ltb max_reasonable_reserve p.reserve_x || ltb max_reasonable_reserve p.reserve_y
    then done (p, 0)
    else (do
      swapped ← simulate_swap_precise p swap_for_y amount_in timestamp
      done (
        swapped.0,
        if unrealistic swapped.0 swap_for_y amount_in swapped.1 then 0 else swapped.1,
      ))

-- The quote of a pair without bins: a constant product, less the fee.
unfoldable pub quote_without_bins : MoeLbPair → ℕ → ℕ → ℕ → Outcome MoeError ℕ
quote_without_bins p reserve_in reserve_out amount_in =
    let total_fee_bps = saturating_add_u128 p.bin_step p.protocol_share_bps in
    let fee_amount = mul256 amount_in total_fee_bps / 10_000 in
    let amount_in_after_fee = amount_in - fee_amount in
    let numerator = mul256 amount_in_after_fee reserve_out in
    let denominator = add256 reserve_in amount_in_after_fee in
    let amount_out = numerator / denominator in
    if (reserve_in == 0) || (reserve_out == 0)
    then done 0
    else if denominator == 0
    then panicked
    else done (
        if ltb reserve_out amount_out || ltb (mul256 amount_in 1000) amount_out
        then 0
        else amount_out)

unfoldable pub simulate_swap_with_timestamp : MoeLbPair → ℕ → ℕ → ℕ → ℕ → Outcome MoeError ℕ
simulate_swap_with_timestamp p base_token quote_token amount_in timestamp =
    if amount_in == 0
    then done 0
    else if not (is_empty p.bins)
    then (do
      swapped ← simulate_swap_across_bins p (base_token == p.token_x.address) amount_in timestamp
      done swapped.1)
    else if base_token == p.token_x.address
    then quote_without_bins p p.reserve_x p.reserve_y amount_in
    else if base_token == p.token_y.address
    then quote_without_bins p p.reserve_y p.reserve_x amount_in
    else done 0

unfoldable pub simulate_swap : MoeLbPair → ℕ → ℕ → ℕ → Outcome MoeError ℕ
simulate_swap p base_token quote_token amount_in =
    simulate_swap_with_timestamp p base_token quote_token amount_in p.time_of_last_update

-- `to::<u128>()`.
abbrev pub to_u128 : ℕ → Outcome MoeError ℕ
to_u128 x = if ltb x (2 ^ 128) then done x else panicked

abbrev pub exchanged_totals : Bool → MoeLbPair → ℕ → ℕ → MoeLbPair
exchanged_totals swap_for_y p paid taken =
    if swap_for_y
    then record p {
      reserve_x = saturating_add_u128 p.reserve_x paid;
      reserve_y = saturating_sub_u128 p.reserve_y taken;
    }
    else record p {
      reserve_y = saturating_add_u128 p.reserve_y paid;
      reserve_x = saturating_sub_u128 p.reserve_x taken;
    }

unfoldable pub simulate_swap_mut : MoeLbPair → ℕ → ℕ → ℕ → Outcome MoeError (MoeLbPair × ℕ)
simulate_swap_mut p base_token quote_token amount_in =
    let swap_for_y = base_token == p.token_x.address in
    do
      swapped ←
          if not (is_empty p.bins)
          then simulate_swap_across_bins p swap_for_y amount_in p.time_of_last_update
          else (do out ← simulate_swap p base_token quote_token amount_in; done (p, out))
      paid ← to_u128 amount_in
      taken ← to_u128 swapped.1
      done (exchanged_totals swap_for_y swapped.0 paid taken, swapped.1)

-- A log by its signature, decoded or decoded in vain.
pub data PairLog : Type 0 where
  swap_log : (id : ℕ) → PairLog
  deposited_to_bins withdrawn_from_bins : (ids amounts : List ℕ) → PairLog
  undecoded : PairLog
  unknown_log : (signature : ℕ) → PairLog

unfoldable pub sync : PairLog → MoeLbPair → Outcome MoeError MoeLbPair
sync (swap_log id) p = done (record p { active_id = id })
sync (deposited_to_bins ids amounts) p = update_bins true ids amounts p
sync (withdrawn_from_bins ids amounts) p = update_bins false ids amounts p
sync undecoded p = failed decode_error
sync (unknown_log signature) p = failed (unrecognized_event_signature signature)

-- ===== src/MoePool/Swaps/Keeping.antt =====
-- What every swap in a bin keeps, of the pair and the output so far, the swap over the bins keeps.
use arbitrage_bot_v.Base.{
  ℕ, zero, suc, inl, inr, Bool, ◌&&◌, ◌||◌, not, Bool-cases, leb, ◌==◌, if◌then◌else◌,
}
use arbitrage_bot_v.Base.Outcome.{Outcome, panicked, failed, done, Holds, Holds-chain}
use arbitrage_bot_v.Base.AssocMap.{is_empty, contains_key}
use arbitrage_bot_v.MoePool.{MoeLbPair, MoeError, max_iterations}
use arbitrage_bot_v.MoePool.Parameters.{Parameters, update_volatility_accumulator, write_back}
use arbitrage_bot_v.MoePool.Bins.{BinSwapResult, simulate_single_bin}
use arbitrage_bot_v.MoePool.Swaps.{
  LoopState, Round, stop, go, next_id, visited, advance, settled, round, next_round, swap_bins,
  first_state, simulate_swap_precise, saturating_add_u256,
}

-- The output with that of one more bin.
abbrev pub with_out : ℕ → ℕ → ℕ
with_out amount_out of_bin =
    if of_bin == 0 then amount_out else saturating_add_u256 amount_out of_bin

-- Of the pair and the output in a state, of the state with which a round ends, and of what a swap
-- in a bin leaves.
abbrev Of : (MoeLbPair → ℕ → Type 0) → LoopState → Type 0
Of K s = K s.pair s.amount_out

abbrev OfRound : (MoeLbPair → ℕ → Type 0) → Round → Type 0
OfRound K (stop s) = Of K s
OfRound K (go s) = Of K s

abbrev pub AfterBin : (MoeLbPair → ℕ → Type 0) → ℕ → MoeLbPair × BinSwapResult → Type 0
AfterBin K amount_out r = K r.0 (with_out amount_out r.1.amount_out)

abbrev pub IsKept : Bool → (MoeLbPair → ℕ → Type 0) → Type 0
IsKept swap_for_y K =
    (p : MoeLbPair) (out : ℕ) (s : Parameters) (id amount_in : ℕ)
    → K p out
    → Holds (AfterBin K out) (simulate_single_bin p s id swap_for_y amount_in)

module _ (K : MoeLbPair → ℕ → Type 0) (swap_for_y : Bool) (kept : IsKept swap_for_y K) where
  advance-keeps : (s : LoopState) → Of K s → OfRound K (advance swap_for_y s)
  advance-keeps s now =
      let next = next_id s.current_id swap_for_y in
      elim (Bool-cases ((next == s.current_id) || visited next s.visited_bins)) [
        | inl ends ↦ rw ends now
        | inr moves ↦ rw moves now
      ]

  settled-keeps :
      (s : LoopState) (r : MoeLbPair × BinSwapResult)
      → AfterBin K s.amount_out r
      → OfRound K (settled swap_for_y s r)
  settled-keeps s (q, result) now =
      elim (Bool-cases
        (not (result.amount_in_with_fee == 0) && leb s.amount_left result.amount_in_with_fee)) [
          | inl ends ↦ rw ends now
          | inr lasts ↦
              rw lasts (elim (Bool-cases (result.bin_exhausted || (result.amount_out == 0))) [
                | inl moves ↦ rw moves (advance-keeps _ now)
                | inr stays ↦ rw stays now
              ])
        ]

  round-keeps : (s : LoopState) → Of K s → Holds (OfRound K) (round swap_for_y s)
  unfolding round
  round-keeps s now =
      let accumulated = record s {
        parameters = update_volatility_accumulator s.parameters s.current_id;
      } in
      elim (Bool-cases (contains_key s.pair.bins s.current_id)) [
        | inl has ↦ rw has (
            Holds-chain (AfterBin K s.amount_out) (OfRound K)
              (simulate_single_bin s.pair accumulated.parameters s.current_id swap_for_y
                s.amount_left)
              _ (kept s.pair s.amount_out accumulated.parameters s.current_id s.amount_left now)
              (λ r after. settled-keeps accumulated r after))
        | inr lacks ↦ rw lacks (advance-keeps s now)
      ]

  next_round-keeps :
      (again : LoopState → Outcome MoeError LoopState) (r : Outcome MoeError Round)
      → ((s : LoopState) → Of K s → Holds (Of K) (again s))
      → Holds (OfRound K) r
      → Holds (Of K) (next_round again r)
  next_round-keeps again panicked later now = tt
  next_round-keeps again (failed e) later now = tt
  next_round-keeps again (done (stop s)) later now = now
  next_round-keeps again (done (go s)) later now = later s now

  swap_bins-keeps :
      (rounds : ℕ) (s : LoopState) → Of K s → Holds (Of K) (swap_bins rounds swap_for_y s)
  unfolding swap_bins
  swap_bins-keeps zero s now = now
  swap_bins-keeps (suc rounds) s now = elim (Bool-cases (s.amount_left == 0)) [
    | inl spent ↦ rw spent now
    | inr some_left ↦ rw some_left (
        next_round-keeps (swap_bins rounds swap_for_y) (round swap_for_y s)
          (λ s' now'. swap_bins-keeps rounds s' now') (round-keeps s now))
  ]

  -- To the end of the swap, if writing the parameters back keeps it too.
  pub simulate_swap_precise-keeps :
      ((s : Parameters) (p : MoeLbPair) (out : ℕ) → K p out → K (write_back s p) out)
      → (p : MoeLbPair) (amount_in timestamp : ℕ) → K p 0
      → Holds (λ r. K r.0 r.1) (simulate_swap_precise p swap_for_y amount_in timestamp)
  unfolding simulate_swap_precise
  simulate_swap_precise-keeps written p amount_in timestamp now =
      let begun = first_state p amount_in timestamp in
      elim (Bool-cases (is_empty p.bins)) [
        | inl lacks ↦ rw lacks now
        | inr has ↦ rw has (
            Holds-chain (Of K) (λ r. K r.0 r.1) (swap_bins max_iterations swap_for_y begun) _
              (swap_bins-keeps max_iterations begun now)
              (λ s after. written s.parameters s.pair s.amount_out after))
      ]

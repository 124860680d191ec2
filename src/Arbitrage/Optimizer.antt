-- ===== src/Arbitrage/Optimizer.antt =====
-- src/arbitrage/optimizer.rs: the simulation of a path and the search for its input.
pub mod Search
pub mod Threshold
use arbitrage_bot_v.Base.{
  ℕ, zero, suc, ◌+◌, ◌-◌, ◌/◌, ◌%◌, ◌^◌, Bool, true, false, List, [], ◌∷◌, Option, some, none, ltb,
  leb, ◌==◌, if◌then◌else◌, min, length,
}
use arbitrage_bot_v.Base.Word.{add256}
use arbitrage_bot_v.Base.Outcome.{Outcome, panicked, failed, done, ◌>>=◌, ok_or}
use arbitrage_bot_v.Arbitrage.Data.{Amm, ArbitrageError, optimization, simulation}

pub record PathHop : Type 0 where
  pub pool_address : ℕ
  pub token_in : ℕ
  pub token_out : ℕ
  pub fee_bps : ℕ

pub record ArbitragePath : Type 0 where
  pub hops : List PathHop

pub record OptimizationConfig : Type 0 where
  pub max_iterations : ℕ
  pub tolerance_bps : ℕ
  pub min_profit : ℕ
  pub max_input : ℕ

pub record OptimizationResult : Type 0 where
  pub path : ArbitragePath
  pub optimal_input : ℕ
  pub expected_profit : ℕ
  pub output_amount : ℕ

unfoldable pub simulate_hop : Amm → PathHop → ℕ → Outcome ArbitrageError ℕ
simulate_hop amm hop amount_in = elim (amm.simulate_swap hop.token_in hop.token_out amount_in) [
  | panicked ↦ panicked
  | failed e ↦ failed simulation
  | done amount_out ↦ done amount_out
]

-- The loop over the hops and their pools; `none` where a hop gives nothing.
unfoldable pub simulate_hops : List PathHop → List Amm → ℕ → Outcome ArbitrageError (Option ℕ)
simulate_hops [] pools current_amount = done (some current_amount)
simulate_hops (hop ∷ hops) [] current_amount = done (some current_amount)
simulate_hops (hop ∷ hops) (amm ∷ pools) current_amount = do
  output ← simulate_hop amm hop current_amount
  if output == 0 then done none else simulate_hops hops pools output

-- `checked_sub` of the input, and the result.
unfoldable pub simulated : ArbitragePath → ℕ → Option ℕ → Option OptimizationResult
simulated path amount_in none = none
simulated path amount_in (some output) =
    if leb amount_in output
    then some (record {
      path = path;
      optimal_input = amount_in;
      expected_profit = output - amount_in;
      output_amount = output;
    })
    else none

unfoldable pub simulate_path :
    ArbitragePath → List Amm → ℕ → Outcome ArbitrageError (Option OptimizationResult)
simulate_path path pools amount_in =
    if length path.hops == 0
    then done none
    else (if amount_in == 0 then done none else (do
      output ← simulate_hops path.hops pools amount_in
      done (simulated path amount_in output)))

-- One probe of the search: the new bounds and the best result so far.
pub record Probe : Type 0 where
  pub low : ℕ
  pub high : ℕ
  pub best_result : Option OptimizationResult

abbrev pub middle : Probe → ℕ
middle p = add256 p.low p.high / 2

unfoldable pub narrow : ℕ → Probe → Option OptimizationResult → Probe
narrow min_profit p none = record p { high = middle p - 1 }
narrow min_profit p (some sim) =
    if ltb min_profit sim.expected_profit
    then record { low = add256 (middle p) 1; high = p.high; best_result = some sim }
    else record p { high = middle p - 1 }

unfoldable pub search_loop :
    ℕ → OptimizationConfig → ArbitragePath → List Amm → Probe → Outcome ArbitrageError Probe
search_loop zero config path pools p = done p
search_loop (suc iterations) config path pools p = do
  sim ← simulate_path path pools (middle p)
  search_loop iterations config path pools (narrow config.min_profit p sim)

abbrev pub start_probe : OptimizationConfig → Probe
start_probe config = record { low = 0; high = min (10 ^ 18) config.max_input; best_result = none }

unfoldable pub optimize :
    OptimizationConfig
    → ArbitragePath
    → List Amm
    → Outcome ArbitrageError (Option OptimizationResult)
optimize config path pools =
    if length pools == length path.hops
    then (do
      p ← search_loop config.max_iterations config path pools (start_probe config)
      done p.best_result)
    else failed optimization

abbrev pub find_pool : ℕ → List Amm → Option Amm
find_pool pool_address [] = none
find_pool pool_address (amm ∷ pools) =
    if amm.address == pool_address then some amm else find_pool pool_address pools

unfoldable pub pools_for_hops : List PathHop → List Amm → Outcome ArbitrageError (List Amm)
pools_for_hops [] state_pools = done []
pools_for_hops (hop ∷ hops) state_pools = do
  pool ← ok_or (find_pool hop.pool_address state_pools) simulation
  pools ← pools_for_hops hops state_pools
  done (pool ∷ pools)

abbrev pub pools_for_path : ArbitragePath → List Amm → Outcome ArbitrageError (List Amm)
pools_for_path path state_pools = pools_for_hops path.hops state_pools

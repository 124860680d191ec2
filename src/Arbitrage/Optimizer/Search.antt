-- ===== src/Arbitrage/Optimizer/Search.antt =====
-- What the search of src/arbitrage/optimizer.rs finds.
use arbitrage_bot_v.Base.{
  ℕ, zero, suc, ◌+◌, ◌^◌, ◌≤◌, ◌<◌, ◌≡◌, ap, subst, ◌∙◌, inl, inr, Bool-cases, ltb→lt, List, Option,
  some, none, ltb, min, arith,
}
use arbitrage_bot_v.Base.Outcome.{done, chain_done}
use arbitrage_bot_v.Arbitrage.Data.{Amm}
use arbitrage_bot_v.Arbitrage.Optimizer.{
  ArbitragePath, OptimizationConfig, OptimizationResult, Probe, simulate_hops, simulated,
  simulate_path, middle, narrow, search_loop, start_probe, optimize,
}

simulated_lem :
    (path : ArbitragePath) (x : ℕ) (output : Option ℕ) {r : OptimizationResult}
    → simulated path x output ≡ some r
    → (r.optimal_input ≡ x) × (r.output_amount ≡ x + r.expected_profit) × (r.path ≡ path)
unfolding simulated
simulated_lem path x none h = absurd (ground arith)
simulated_lem path x (some output) h = (ground arith, ground arith, ground arith)

-- A simulation that gives a result is of a positive input, which comes back with the profit.
pub simulate_path-result :
    (path : ArbitragePath) (pools : List Amm) (x : ℕ) {r : OptimizationResult}
    → simulate_path path pools x ≡ done (some r)
    → (0 < x) × (r.optimal_input ≡ x) × (r.output_amount ≡ x + r.expected_profit) × (r.path ≡ path)
unfolding simulate_path
simulate_path-result path pools x {r} sim =
    let positive : 0 < x = ground arith in
    let (output, _, end) =
      chain_done (simulate_hops path.hops pools x) (λ o. done (simulated path x o))
        {result = some r} (ground arith) in
    let result = simulated_lem path x output (ground arith) in
    (positive, result.0, result.1, result.2)

module _ (config : OptimizationConfig) (path : ArbitragePath) (pools : List Amm) where
  -- A result that the search may keep.
  IsResult : ℕ → OptimizationResult → Type 0
  IsResult top r =
      (simulate_path path pools r.optimal_input ≡ done (some r))
      × (config.min_profit < r.expected_profit)
      × (r.optimal_input ≤ top)

  IsProbe : ℕ → Probe → Type 0
  IsProbe top p =
      (p.low ≤ top + 1)
      × (p.high ≤ top)
      × ((r : OptimizationResult) → p.best_result ≡ some r → IsResult top r)

  narrow-IsProbe :
      (top : ℕ) (p : Probe) (sim : Option OptimizationResult)
      → top < 2 ^ 254
      → simulate_path path pools (middle p) ≡ done sim
      → IsProbe top p
      → IsProbe top (narrow config.min_profit p sim)
  unfolding narrow IsProbe IsResult
  narrow-IsProbe top p none fits sim (low, high, best) = (low, ground arith, best)
  narrow-IsProbe top p (some r) fits sim (low, high, best) =
      elim (Bool-cases (ltb config.min_profit r.expected_profit)) [
        | inl more ↦
            let (_, input, _, _) = simulate_path-result path pools (middle p) sim in
            let kept : IsResult top r = (
              ap (simulate_path path pools) input ∙ sim,
              ltb→lt config.min_profit r.expected_profit more,
              ground arith,
            ) in
            rw more (ground arith, high, λ r' is. subst (IsResult top) (cc) kept)
        | inr less ↦ rw less (low, ground arith, best)
      ]

  -- The loop keeps the invariant, and never fails where no simulation does.
  search_loop-IsProbe :
      (top iterations : ℕ) (p : Probe) {q : Probe}
      → top < 2 ^ 254
      → IsProbe top p
      → search_loop iterations config path pools p ≡ done q
      → IsProbe top q
  unfolding search_loop
  search_loop-IsProbe top zero p fits ok ends = subst (IsProbe top) (cc) ok
  search_loop-IsProbe top (suc iterations) p {q} fits ok ends =
      let (sim, simulates, rest) =
        chain_done (simulate_path path pools (middle p))
          (λ s. search_loop iterations config path pools (narrow config.min_profit p s))
          {result = q} ends in
      search_loop-IsProbe top iterations (narrow config.min_profit p sim) fits
        (narrow-IsProbe top p sim fits simulates ok) rest

  start_probe-IsProbe : IsProbe (min (10 ^ 18) config.max_input) (start_probe config)
  unfolding IsProbe
  start_probe-IsProbe = (omega arith, omega arith, λ r is. absurd cc)

  -- Whatever `optimize` returns is the simulated result of its own input, which is positive and
  -- at most the configured one and a whole token, with a profit above the configured minimum
  -- that is the output less the input.
  pub optimize-result :
      {r : OptimizationResult}
      → optimize config path pools ≡ done (some r)
      → (simulate_path path pools r.optimal_input ≡ done (some r))
        × (config.min_profit < r.expected_profit)
        × (r.output_amount ≡ r.optimal_input + r.expected_profit)
        × (0 < r.optimal_input)
        × (r.optimal_input ≤ min (10 ^ 18) config.max_input)
  unfolding optimize IsProbe IsResult
  optimize-result {r} found =
      let top = min (10 ^ 18) config.max_input in
      let (q, ends, best) =
        chain_done (search_loop config.max_iterations config path pools (start_probe config))
          (λ p. done p.best_result) {result = some r} (ground arith) in
      let (_, _, kept) =
        search_loop-IsProbe top config.max_iterations (start_probe config) (omega arith)
          start_probe-IsProbe ends in
      let (simulates, more, below) = kept r (ground arith) in
      let (positive, input, output, _) =
        simulate_path-result path pools r.optimal_input simulates in
      (simulates, more, output, positive, below)

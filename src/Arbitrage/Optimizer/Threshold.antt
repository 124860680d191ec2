-- ===== src/Arbitrage/Optimizer/Threshold.antt =====
-- The search of src/arbitrage/optimizer.rs where profits stop at a threshold.
use arbitrage_bot_v.Base.{
  ℕ, zero, suc, ◌+◌, ◌^◌, ◌≤◌, ◌<◌, ◌≡◌, refl, ◌⊎◌, inl, inr, Bool, false, Bool-cases, ◌&&◌, List,
  Option, some, none, ltb, leb, min, length, arith,
}
use native.Mathlib.Nat.{pow-suc}
use arbitrage_bot_v.Base.Outcome.{done}
use arbitrage_bot_v.Arbitrage.Data.{Amm}
use arbitrage_bot_v.Arbitrage.Optimizer.{
  ArbitragePath, OptimizationConfig, OptimizationResult, Probe, simulate_path, middle, narrow,
  search_loop, start_probe, optimize,
}
use arbitrage_bot_v.Arbitrage.Optimizer.Search.{simulate_path-result}

-- A simulation that the search counts as profitable.
abbrev pub beats : ℕ → Option OptimizationResult → Bool
beats min_profit none = false
beats min_profit (some r) = ltb min_profit r.expected_profit

module _ (config : OptimizationConfig) (path : ArbitragePath) (pools : List Amm)
    (probe : ℕ → Option OptimizationResult) (threshold top : ℕ) where
  -- The greatest profitable input that is allowed.
  abbrev greatest : ℕ
  greatest = min threshold top

  -- The bounds enclose the greatest input within `2 ^ k`, and the best result is just below `low`.
  Encloses : ℕ → Probe → Type 0
  Encloses k p =
      (p.low ≤ greatest + 1)
      × (greatest ≤ p.high)
      × (p.high ≤ top)
      × (p.high + 1 < 2 ^ k + p.low)
      × ((p.low ≡ 0)
          ⊎ (r : OptimizationResult) × (p.best_result ≡ some r) × (r.optimal_input + 1 ≡ p.low))

  narrow-Encloses :
      (k : ℕ) (p : Probe) (sim : Option OptimizationResult)
      → top < 2 ^ 254
      → 2 ≤ greatest
      → simulate_path path pools (middle p) ≡ done sim
      → beats config.min_profit sim ≡ (ltb 0 (middle p) && leb (middle p) threshold)
      → Encloses (suc k) p
      → Encloses k (narrow config.min_profit p sim)
  unfolding narrow Encloses
  narrow-Encloses k p none fits two sim test (low, high, below, close, best) =
      let double = pow-suc 2 k in (ground arith, ground arith, ground arith, ground arith, best)
  narrow-Encloses k p (some r) fits two sim test (low, high, below, close, best) =
      let double = pow-suc 2 k in
      let input = (simulate_path-result path pools (middle p) sim).1 in
      elim (Bool-cases (ltb config.min_profit r.expected_profit)) [
        | inl more ↦
            rw more
              (ground arith, ground arith, ground arith, ground arith, inr (r, refl, ground arith))
        | inr less ↦ rw less (ground arith, ground arith, ground arith, ground arith, best)
      ]

  middle-le : (k : ℕ) (p : Probe) → top < 2 ^ 254 → 2 ≤ greatest → Encloses k p → middle p ≤ top
  unfolding Encloses
  middle-le k p fits two (low, high, below, _, _) = omega arith

  search_loop-greatest :
      (k : ℕ) (p : Probe)
      → top < 2 ^ 254
      → 2 ≤ greatest
      → ((x : ℕ) → x ≤ top → simulate_path path pools x ≡ done (probe x))
      → ((x : ℕ) → x ≤ top → beats config.min_profit (probe x) ≡ (ltb 0 x && leb x threshold))
      → Encloses k p
      → (q : Probe) × (search_loop k config path pools p ≡ done q) × Encloses 0 q
  unfolding search_loop
  search_loop-greatest zero p fits two simulates test h = (p, refl, h)
  search_loop-greatest (suc k) p fits two simulates test h =
      let below = middle-le (suc k) p fits two h in
      let sim = probe (middle p) in
      let (q, ends, closed) =
        search_loop-greatest k (narrow config.min_profit p sim) fits two simulates test (
          narrow-Encloses k p sim fits two (simulates (middle p) below) (test (middle p) below)
            h) in
      (q, rw (simulates (middle p) below) ends, closed)

  start_probe-Encloses :
      (k : ℕ)
      → top ≡ min (10 ^ 18) config.max_input
      → top + 1 < 2 ^ k
      → Encloses k (start_probe config)
  unfolding Encloses
  start_probe-Encloses k is close = (omega arith, omega arith, omega arith, omega arith, inl refl)

  -- Where no simulation of an allowed input fails, and an allowed input is profitable exactly when
  -- it is positive and at most a threshold, and both the threshold and the largest allowed input
  -- are at least 2, then with enough iterations for the allowed inputs `optimize` returns the
  -- greatest profitable input that is allowed, whatever input profits most.
  pub optimize-greatest :
      length pools ≡ length path.hops
      → top ≡ min (10 ^ 18) config.max_input
      → 2 ≤ min threshold top
      → top + 1 < 2 ^ config.max_iterations
      → ((x : ℕ) → x ≤ top → simulate_path path pools x ≡ done (probe x))
      → ((x : ℕ) → x ≤ top → beats config.min_profit (probe x) ≡ (ltb 0 x && leb x threshold))
      → (r : OptimizationResult) × (optimize config path pools ≡ done (some r))
        × (r.optimal_input ≡ min threshold top)
  unfolding optimize Encloses
  optimize-greatest lengths is two close simulates test =
      let (q, ends, (low, high, _, closed, best)) =
        search_loop-greatest config.max_iterations (start_probe config) (omega arith) two simulates
          test (start_probe-Encloses config.max_iterations is close) in
      elim best [
        | inl none_yet ↦ absurd (omega arith)
        | inr (r, found, input) ↦ (r, ground arith, omega arith)
      ]

-- ===== src/Tests/Arbitrage.antt =====
-- src/arbitrage at concrete values.
use arbitrage_bot_v.Base.{
  ℕ, ◌+◌, ◌^◌, ◌≤◌, ◌<◌, ◌≡◌, refl, false, ◌&&◌, Option, some, none, List, [], ◌∷◌, map, ltb, leb,
  ◌==◌, if◌then◌else◌, min, length, All, arith,
}
use arbitrage_bot_v.Base.Outcome.{done}
use arbitrage_bot_v.Arbitrage.Data.{Amm, uniswap_v3_pool, uniswap_v2_pool, extract_pool}
use arbitrage_bot_v.Arbitrage.Graph.{
  build_graph, add_pools, add_pool, add_extraction, node_for, add_edge_once,
}
use arbitrage_bot_v.Arbitrage.Graph.Consistency.{
  JoinsTokens, IsDistinct, key_of, build_graph-JoinsTokens,
}
use arbitrage_bot_v.Arbitrage.Optimizer.{
  ArbitragePath, OptimizationConfig, OptimizationResult, simulate_hop, simulate_hops, simulated,
  simulate_path, narrow, search_loop, optimize,
}
use arbitrage_bot_v.Arbitrage.Optimizer.Search.{optimize-result}
use arbitrage_bot_v.Arbitrage.Optimizer.Threshold.{beats, optimize-greatest}
use arbitrage_bot_v.Arbitrage.PathFinder.{
  PathConstraints, find_cycles, unique_paths, cycles_below, cycles_from, drain_queue, expand,
  follow_edges, follow_edge, follow_to, closed, path_matches_constraints, convert_edges,
}
use arbitrage_bot_v.Arbitrage.Misprices.{find_two_pool_misprices}
use arbitrage_bot_v.Arbitrage.Misprices.Ends.{IsOpenPair, find_two_pool_misprices-IsOpenPair}
use arbitrage_bot_v.Arbitrage.PathFinder.Termination.{IsSomeCycle, IsFresh, find_cycles-IsCycle}
use arbitrage_bot_v.Arbitrage.PathFinder.Chains.{Chain, find_cycles-Chain}

-- A pool that pays 2000 more than it takes, up to an input of 100.
abbrev generous : Amm
generous = record {
  variant = uniswap_v3_pool;
  address = 10;
  token_a = record { address = 1; decimals = 18 };
  token_b = record { address = 2; decimals = 18 };
  fee = 500;
  simulate_swap = λ base quote x. done (if leb x 100 then 2000 + x else x);
}

abbrev fair : Amm
fair = record {
  variant = uniswap_v2_pool;
  address = 11;
  token_a = record { address = 1; decimals = 18 };
  token_b = record { address = 2; decimals = 18 };
  fee = 300;
  simulate_swap = λ base quote x. done x;
}

abbrev one_hop : ArbitragePath
one_hop = record {
  hops = record { pool_address = 10; token_in = 1; token_out = 2; fee_bps = 500 } ∷ [];
}

abbrev config : OptimizationConfig
config = record { max_iterations = 16; tolerance_bps = 5; min_profit = 1000; max_input = 1000 }

abbrev outcome_of : ℕ → Option OptimizationResult
unfolding simulated
outcome_of x =
    if x == 0 then none else simulated one_hop x (some (if leb x 100 then 2000 + x else x))

outcome_of_simulates :
    (x : ℕ) → x ≤ 1000 → simulate_path one_hop (generous ∷ []) x ≡ done (outcome_of x)
unfolding simulate_path simulate_hops simulate_hop simulated outcome_of
outcome_of_simulates x low = ground arith

beats-outcome_of : (x : ℕ) → x ≤ 1000 → beats 1000 (outcome_of x) ≡ (ltb 0 x && leb x 100)
unfolding outcome_of simulated
beats-outcome_of x low = ground arith

optimize-greatest_example :
    (r : OptimizationResult) × (optimize config one_hop (generous ∷ []) ≡ done (some r))
    × (r.optimal_input ≡ min 100 1000)
optimize-greatest_example =
    optimize-greatest config one_hop (generous ∷ []) outcome_of 100 1000 refl refl (omega arith)
      (omega arith) outcome_of_simulates beats-outcome_of

abbrev best : OptimizationResult
best = record { path = one_hop; optimal_input = 100; expected_profit = 2000; output_amount = 2100 }

optimized : optimize config one_hop (generous ∷ []) ≡ done (some best)
unfolding optimize search_loop narrow simulate_path simulate_hops simulate_hop simulated
optimized = refl

optimize-result_example :
    (simulate_path one_hop (generous ∷ []) 100 ≡ done (some best))
    × (1000 < 2000)
    × (2100 ≡ 100 + 2000)
    × (0 < 100)
    × (100 ≤ min (10 ^ 18) 1000)
optimize-result_example = optimize-result config one_hop (generous ∷ []) optimized

abbrev pools : List Amm
pools = generous ∷ fair ∷ []

abbrev constraints : PathConstraints
constraints = record {
  max_length = 2;
  allow_self_cycle = false;
  required_start_token = some 1;
  required_end_token = none;
}

abbrev there_and_back : (out out_fee back back_fee : ℕ) → ArbitragePath
there_and_back out out_fee back back_fee = record {
  hops =
      record { pool_address = out; token_in = 1; token_out = 2; fee_bps = out_fee }
      ∷ record { pool_address = back; token_in = 2; token_out = 1; fee_bps = back_fee }
      ∷ [];
}

-- Out by one pool and back by the same or the other.
four_cycles :
    find_cycles (build_graph pools) constraints
    ≡ some (
        there_and_back 11 30 11 30
        ∷ there_and_back 11 30 10 500
        ∷ there_and_back 10 500 11 30
        ∷ there_and_back 10 500 10 500
        ∷ [])
unfolding find_cycles unique_paths cycles_below cycles_from drain_queue expand follow_edges
    follow_edge follow_to closed path_matches_constraints convert_edges add_pools add_pool
    add_extraction node_for add_edge_once extract_pool
four_cycles = refl

build_graph-JoinsTokens_example :
    All (JoinsTokens (build_graph pools).node_tokens) (build_graph pools).edges
    × IsDistinct (map key_of (build_graph pools).edges)
build_graph-JoinsTokens_example = build_graph-JoinsTokens pools

find_cycles-IsCycle_example :
    (paths : List ArbitragePath) × (find_cycles (build_graph pools) constraints ≡ some paths)
    × All (IsSomeCycle (build_graph pools) constraints) paths
    × IsFresh [] paths
find_cycles-IsCycle_example = find_cycles-IsCycle (build_graph pools) constraints

find_cycles-Chain_example :
    (paths : List ArbitragePath) × (find_cycles (build_graph pools) constraints ≡ some paths)
    × All
        (λ (path : ArbitragePath).
          ((token : ℕ) × Chain token path.hops token)
          × (1 ≤ length path.hops)
          × (length path.hops ≤ 2))
        paths
find_cycles-Chain_example = find_cycles-Chain pools constraints

-- A chain of two pools over three tokens.
abbrev onward : Amm
onward = record fair {
  address = 12;
  token_a = record { address = 2; decimals = 18 };
  token_b = record { address = 3; decimals = 18 };
}

find_two_pool_misprices-IsOpenPair_example :
    All
      (IsOpenPair (build_graph (fair ∷ onward ∷ [])) constraints)
      (find_two_pool_misprices (build_graph (fair ∷ onward ∷ [])) constraints)
find_two_pool_misprices-IsOpenPair_example =
    find_two_pool_misprices-IsOpenPair (build_graph (fair ∷ onward ∷ [])) constraints

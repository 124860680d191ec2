-- ===== src/Lib.antt =====
-- Verification library of the arbitrage bot: the arithmetic of the pools, the search for
-- profitable cycles and the preparation of the transaction that takes one.
--
-- The program. The state space (src/state_space) holds the pools (src/amms) and keeps them in step
-- with the chain. src/arbitrage builds a graph with a node for each token and two edges for each
-- pool, finds the cycles of bounded length in it, and searches for an input by simulating the swaps
-- of the pools on a path. src/execution turns a chosen path into a call of the executor contract:
-- it fixes the expected outputs and the smallest acceptable one, plans the gas fees from the
-- expected profit, and hands out the nonces. A pool is of one of four kinds: Uniswap V2, with two
-- reserves; Uniswap V3 and Agni, with liquidity between ticks; or a pair of the Liquidity Book
-- (src/amms/moe), with bins of one price each, whose fees are computed on packed 256-bit words by
-- src/amms/moe/math. Each kind quotes a swap, books a swap, and takes the logs of its events.
--
-- Which file models what:
--   Base: shared names, list and number lemmas, bits and binary digits, machine words, signed
--     words, hash maps, outcomes of fallible calls
--   MoeMath.Error, Encoded, PackedUint128, SafeCast, FeeHelper, SampleMath, LiquidityConfigurations,
--     PairParameters, Uint256x256Math, Uint128x128Math, BitMath, TreeMath, PriceHelper, BinHelper:
--     the files of src/amms/moe/math of those names (encoded.rs, packed_uint128_math.rs,
--     safe_cast.rs, fee_helper.rs, sample_math.rs, liquidity_configurations.rs,
--     pair_parameter_helper.rs, uint256x256_math.rs, uint128x128_math.rs, bit_math.rs, tree_math.rs,
--     price_helper.rs, bin_helper.rs, and constants.rs)
--   MoePool: src/amms/moe/mod.rs; its Parameters are the fee parameters, its Bins a swap within one
--     bin and the deposits, its Swaps the swap over the bins, both swaps and the events
--   UniswapV2: src/amms/uniswap_v2/mod.rs, its swaps, its sync and the 64.64 division
--   TickPool: the ticks and their bitmap, which src/amms/uniswap_v3/mod.rs and src/amms/agni/mod.rs
--     have alike, and the loop of simulate_swap of the first file
--   UniswapV3, Agni: the pools of those two files, their positions, events and swaps; Mutating and
--     Agni.Swaps have the loops of simulate_swap_mut of the first file and of simulate_swap of the
--     second, which are texts of their own
--   Arbitrage.Data, Graph, PathFinder, Misprices, Optimizer: data.rs, graph.rs, pathfinder.rs
--     (find_cycles and find_two_pool_misprices) and optimizer.rs of src/arbitrage, and of
--     src/amms/amm.rs the trait that a pool meets
--   Execution.Nonce, GasSchedule, FeePlan, Executor: nonce.rs, gas_schedule.rs and gas.rs (with
--     src/arbitrage/gas.rs), types.rs and executor.rs of src/execution
--   StateSpace.Cache, Filters, Sync: cache.rs, the filters folder and StateSpace::sync (mod.rs) of
--     src/state_space
--   Tests: runs on concrete inputs
-- The definitions have the names of the functions and types that they translate; a loop or a part of
-- a function that is a definition of its own says so above it. Children of a component hold proofs.
--
-- Conventions. U256 is a native number and its operators wrap modulo 2^256; u8 to u128 wrap as in
-- the release profile; saturating and checked operations are written out. An i32, an i128 or an I256
-- is the word of its two's complement. A panic (unwrap of nothing, division by zero, index out of
-- range) is an outcome of its own, or `none` for the Uniswap V2 pool. Addresses are numbers. A
-- HashMap is an association list, with the latest entry first, or, for the ticks, their bitmap and
-- the tree of bins, the function of its get; petgraph's edges stand latest first, as it iterates
-- over them. A call that fails leaves no state to the model of a Liquidity Book pair.
--
-- The crate uniswap_v3_math is a parameter, TickMath, of the definitions that call it. IsTickMath
-- says what it documents of a step of a swap and of the ticks on either side of a price, and
-- IsPlacing where the bit of a tick lies in the bitmap. The tests give both an instance.
--
-- Fuel. drain_queue is the breadth-first loop of find_cycles; its fuel is 1 + E + E^2 + ... up to
-- the largest path length, for E edges, since an entry of the queue leads to at most E longer ones.
-- swap_loop, and with it mutating_loop and agni_loop, has 2^21 rounds, more than there are ticks on
-- the way to either end. swap_bins has the 512 rounds that its loop counts itself. log_rounds has
-- 127 rounds and pow_rounds 128, as many as halvings of a number of that many bits. sqrt_loop has
-- as many rounds as its first guess, which every round but the last lowers. sync_loop is a compare-
-- exchange loop, for which one round is enough without interference. div_uu needs none, and the
-- search for the input has the iterations of its configuration.
--
-- Not modelled: requests to the chain and their decoding (in the executor they are parameters), the
-- start-up of pools and of the state space, the factories, the filter by value, floating-point
-- prices, logging and CSV files; the contracts, the examples and the benches, which are programs
-- around the library.
pub mod Base
pub mod MoeMath
pub mod UniswapV2
pub mod MoePool
pub mod TickPool
pub mod UniswapV3
pub mod Agni
pub mod Execution
pub mod Arbitrage
pub mod StateSpace
pub mod Tests

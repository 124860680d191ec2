-- ===== src/Arbitrage.antt =====
-- src/arbitrage: the graph of the pools, the search for cycles, and the choice of an input.
pub mod Data
pub mod Graph
pub mod PathFinder
pub mod Misprices
pub mod Optimizer

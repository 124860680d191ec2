-- ===== src/Tests.antt =====
-- Evaluations of the model at concrete inputs, and the theorems at inputs that meet their hypotheses.
mod MoeFields
mod MoeAmounts
mod Pools
mod TickPools
mod Execution
mod Arbitrage
mod StateSpace
mod MoeBins
mod MoePools

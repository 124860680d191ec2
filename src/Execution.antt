-- ===== src/Execution.antt =====
-- src/execution: nonces, gas limits and prices, the fee plan and the call of the executor contract.
pub mod Nonce
pub mod GasSchedule
pub mod FeePlan
pub mod Executor

-- ===== src/Execution/FeePlan/Bounds.antt =====
-- The fee plan is consistent and pays no more than the profit allows.
use arbitrage_bot_v.Base.{ℕ, ◌+◌, ◌*◌, ◌≤◌, ltb, if◌then◌else◌, arith}
use native.Mathlib.Nat.{div-mul-le_self, mul-le-mul_left}
use arbitrage_bot_v.Execution.FeePlan.{
  ExecutorConfig, compute_fee_plan, cap_from_profit, profit_per_gas, global_cap, plan_gas_limit,
}

global_cap-lower : (net : ℕ) → 500000000 ≤ global_cap net
unfolding global_cap
global_cap-lower net = ground arith

profit_per_gas-le : (gas_limit net : ℕ) → gas_limit * profit_per_gas gas_limit net ≤ net
unfolding profit_per_gas
profit_per_gas-le gas_limit net = grind (arith, div-mul-le_self net gas_limit)

-- The percent of the profit that the cap may spend, in halves.
abbrev halves : ℕ → ℕ
halves net = if ltb net 100000000000000000 then 3 else 2

cap_from_profit-per_gas :
    (gas_limit net : ℕ)
    → 2 * cap_from_profit gas_limit net ≤ halves net * profit_per_gas gas_limit net
unfolding cap_from_profit
cap_from_profit-per_gas gas_limit net = ground arith

cap_from_profit-le :
    (gas_limit net : ℕ) → 2 * (gas_limit * cap_from_profit gas_limit net) ≤ halves net * net
cap_from_profit-le gas_limit net =
    let cap = mul-le-mul_left gas_limit (cap_from_profit-per_gas gas_limit net) in
    let all = mul-le-mul_left (halves net) (profit_per_gas-le gas_limit net) in grind arith

-- Whatever is configured and expected, the fee for each unit of gas lies between the base fee and
-- the cap of the expected profit, and the base fee and the tip together never exceed it.
pub compute_fee_plan-bounds :
    (config : ExecutorConfig) (hops net_expected : ℕ)
    → let plan = compute_fee_plan config hops net_expected in
      (plan.base_fee_wei ≤ plan.max_fee_per_gas_wei)
      × (plan.max_fee_per_gas_wei ≤ plan.effective_global_cap_wei)
      × (plan.base_fee_wei + plan.max_priority_fee_per_gas_wei ≤ plan.max_fee_per_gas_wei)
      × (plan.max_priority_fee_per_gas_wei ≤ plan.initial_priority_fee)
unfolding compute_fee_plan
compute_fee_plan-bounds config hops net_expected =
    let cap = global_cap-lower net_expected in ground arith

-- Where the profit for each unit of gas covers the base fee and the configured tip, all the gas of
-- the plan at its highest fee costs at most the expected profit, or half as much again where that
-- is below a tenth of a token.
pub compute_fee_plan-spend :
    (config : ExecutorConfig) (hops net_expected : ℕ)
    → 20000000 + config.default_priority_fee_wei
      ≤ (compute_fee_plan config hops net_expected).total_cap_from_profit
    → let plan = compute_fee_plan config hops net_expected in
      2 * (plan.gas_limit * plan.max_fee_per_gas_wei)
      ≤ (if ltb net_expected 100000000000000000 then 3 else 2) * net_expected
unfolding compute_fee_plan
compute_fee_plan-spend config hops net_expected covered =
    let limit = plan_gas_limit config hops in
    let fee : (compute_fee_plan config hops net_expected).max_fee_per_gas_wei
        ≤ cap_from_profit limit net_expected =
      ground arith in
    let spent = mul-le-mul_left limit fee in
    let cap = cap_from_profit-le limit net_expected in omega arith

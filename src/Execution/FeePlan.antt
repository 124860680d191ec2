-- ===== src/Execution/FeePlan.antt =====
-- src/execution/types.rs and `compute_fee_plan` of src/execution/executor.rs.
pub mod Bounds
use arbitrage_bot_v.Base.{
  ℕ, zero, suc, ◌+◌, ◌-◌, ◌*◌, ◌/◌, ◌^◌, Bool, true, false, Option, some, none, ltb, ◌==◌,
  if◌then◌else◌, min, max,
}
use arbitrage_bot_v.Execution.GasSchedule.{saturating_add128, saturating_mul128}

pub data FeeMode : Type 0 where
  legacy eip1559 : FeeMode

-- `slippage_tolerance` is a float; `slippage_scaled` is `(slippage_tolerance * 1e6) as u128`, the
-- only number that is made of it.
pub record ExecutorConfig : Type 0 where
  pub chain_id : ℕ
  pub v3_router_address : Option ℕ
  pub moe_router_address : Option ℕ
  pub slippage_scaled : ℕ
  pub gas_limit : ℕ  -- u64
  pub default_priority_fee_wei : ℕ  -- u128
  pub global_fee_hard_cap_wei : ℕ
  pub fee_mode : FeeMode
  pub min_net_profit_mnt_wei : ℕ
  pub include_gas_cost_in_min_out : Bool
  pub enforce_non_loss : Bool
  pub fixed_gas_price_wei : Option ℕ

pub record FeePlan : Type 0 where
  pub gas_limit : ℕ
  pub base_fee_wei : ℕ
  pub default_priority_fee_wei : ℕ
  pub total_cap_from_profit : ℕ
  pub cap_priority_fee_from_profit : ℕ
  pub initial_priority_fee : ℕ
  pub max_priority_fee_per_gas_wei : ℕ
  pub max_fee_per_gas_wei : ℕ
  pub effective_global_cap_wei : ℕ
  pub is_small_profit : Bool

abbrev pub mantle_base_fee_wei : ℕ
mantle_base_fee_wei = 20000000

unfoldable pub plan_gas_limit : ExecutorConfig → ℕ → ℕ
plan_gas_limit config hops =
    if hops == 4 then 750000000 else (if hops == 2 then 450000000 else config.gas_limit)

-- The cap by the size of the expected profit.
unfoldable pub global_cap : ℕ → ℕ
global_cap net_expected =
    if ltb net_expected 1000000000000000000
    then 500000000
    else (if ltb net_expected 5000000000000000000 then 3000000000 else 2 ^ 128 - 1)

-- The profit as a u128 (0 where it does not fit), for each unit of gas.
unfoldable pub profit_per_gas : (gas_limit net_expected : ℕ) → ℕ
profit_per_gas gas_limit net_expected =
    let net_expected_u128 = if ltb net_expected (2 ^ 128) then net_expected else 0 in
    if ltb 0 gas_limit then net_expected_u128 / gas_limit else 0

-- `total_cap_from_profit`: the profit for each unit of gas, half as much again for small profits.
unfoldable pub cap_from_profit : (gas_limit net_expected : ℕ) → ℕ
cap_from_profit gas_limit net_expected =
    let total = profit_per_gas gas_limit net_expected in
    if ltb 0 total
    then (if ltb net_expected 50000000000000000
        then saturating_mul128 total 3 / 2
        else (if ltb net_expected 100000000000000000 then saturating_mul128 total 3 / 2 else total))
    else total

unfoldable pub compute_fee_plan : ExecutorConfig → ℕ → ℕ → FeePlan
compute_fee_plan config hops net_expected =
    let gas_limit = plan_gas_limit config hops in
    let priority_fee_wei = config.default_priority_fee_wei in
    let total_cap_from_profit = cap_from_profit gas_limit net_expected in
    let cap_priority_fee_from_profit = total_cap_from_profit - mantle_base_fee_wei in
    let initial_priority_fee = max priority_fee_wei cap_priority_fee_from_profit in
    let wanted = saturating_add128 mantle_base_fee_wei initial_priority_fee in
    let max_fee_per_gas_wei =
      if ltb (global_cap net_expected) wanted then global_cap net_expected else wanted in
    record {
      gas_limit = gas_limit;
      base_fee_wei = mantle_base_fee_wei;
      default_priority_fee_wei = priority_fee_wei;
      total_cap_from_profit = total_cap_from_profit;
      cap_priority_fee_from_profit = cap_priority_fee_from_profit;
      initial_priority_fee = initial_priority_fee;
      max_priority_fee_per_gas_wei =
          min initial_priority_fee (max_fee_per_gas_wei - mantle_base_fee_wei);
      max_fee_per_gas_wei = max_fee_per_gas_wei;
      effective_global_cap_wei = global_cap net_expected;
      is_small_profit = ltb net_expected 100000000000000000;
    }

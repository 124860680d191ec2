-- ===== src/Execution/GasSchedule/Costs.antt =====
-- What a path costs, on src/arbitrage/gas.rs and src/execution/gas_schedule.rs.
use arbitrage_bot_v.Base.{ℕ, ◌+◌, ◌-◌, ◌*◌, ◌^◌, ◌≤◌, ◌<◌, ◌≡◌, ◌⊎◌, some, none, arith}
use native.Mathlib.Nat.{mul-le-mul, mul-le-mul_right}
use arbitrage_bot_v.Execution.GasSchedule.{
  GasConfig, gas_limit_for_hops, cost_gas_limit, calculate_gas_cost, net_profit,
}

-- The two schedules agree on the paths that the search makes.
pub cost_gas_limit-gas_limit_for_hops :
    (hops : ℕ) → 1 ≤ hops → hops ≤ 4 → cost_gas_limit hops ≡ gas_limit_for_hops hops
unfolding cost_gas_limit gas_limit_for_hops
cost_gas_limit-gas_limit_for_hops hops low high = ground arith

cost_gas_limit-lt : (hops : ℕ) → cost_gas_limit hops < 2 ^ 64
unfolding cost_gas_limit
cost_gas_limit-lt hops = ground arith

cost_gas_limit_mono :
    (fewer more : ℕ)
    → fewer ≤ more
    → more < 36000000000
    → cost_gas_limit fewer ≤ cost_gas_limit more
unfolding cost_gas_limit
cost_gas_limit_mono fewer more le fits = ground arith

-- A gas limit times a 128-bit price never wraps.
pub calculate_gas_cost_exact :
    (config : GasConfig) (hops : ℕ)
    → config.gas_price_wei < 2 ^ 128
    → calculate_gas_cost config hops ≡ cost_gas_limit hops * config.gas_price_wei
unfolding calculate_gas_cost
calculate_gas_cost_exact config hops price =
    let limit = cost_gas_limit-lt hops in
    let product : cost_gas_limit hops * config.gas_price_wei ≤ 2 ^ 64 * (2 ^ 128 - 1) =
      mul-le-mul {n₂ = 2 ^ 64} {m₂ = 2 ^ 128 - 1} (omega arith) (omega arith) in
    omega arith

-- At a 128-bit gas price, what `net_profit` gives is the gross profit less the gas limit times the
-- price, and it gives nothing exactly when the gross profit is smaller than that.
pub net_profit_exact :
    (config : GasConfig) (gross hops : ℕ)
    → config.gas_price_wei < 2 ^ 128
    → (((net : ℕ) × (net_profit config gross hops ≡ some net)
          × (gross ≡ net + cost_gas_limit hops * config.gas_price_wei))
        ⊎ (net_profit config gross hops ≡ none)
          × (gross < cost_gas_limit hops * config.gas_price_wei))
unfolding net_profit
net_profit_exact config gross hops price =
    let exact = calculate_gas_cost_exact config hops price in ground arith

-- A path that is profitable stays so with fewer hops, up to 36 billion, at the same gross profit,
-- and then nets at least as much.
pub net_profit_mono :
    (config : GasConfig) (gross fewer more : ℕ) {long : ℕ}
    → config.gas_price_wei < 2 ^ 128
    → fewer ≤ more
    → more < 36000000000
    → net_profit config gross more ≡ some long
    → (short : ℕ) × (net_profit config gross fewer ≡ some short) × (long ≤ short)
unfolding net_profit
net_profit_mono config gross fewer more price le fits nets =
    let long_cost = calculate_gas_cost_exact config more price in
    let short_cost = calculate_gas_cost_exact config fewer price in
    let dearer = mul-le-mul_right config.gas_price_wei (cost_gas_limit_mono fewer more le fits) in
    (gross - calculate_gas_cost config fewer, ground arith, ground arith)

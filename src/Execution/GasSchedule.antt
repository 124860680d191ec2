-- ===== src/Execution/GasSchedule.antt =====
-- src/execution/gas_schedule.rs, src/execution/gas.rs and src/arbitrage/gas.rs.
pub mod Costs
use arbitrage_bot_v.Base.{
  ℕ, ◌+◌, ◌-◌, ◌*◌, ◌%◌, ◌^◌, Option, some, none, ltb, leb, ◌==◌, if◌then◌else◌, min,
}
use arbitrage_bot_v.Base.Word.{u64, mul256}

abbrev pub one_hop_gas_limit : ℕ
one_hop_gas_limit = 300000000

abbrev pub two_hop_gas_limit : ℕ
two_hop_gas_limit = 900000000

abbrev pub three_hop_gas_limit : ℕ
three_hop_gas_limit = 1500000000

abbrev pub four_hop_gas_limit : ℕ
four_hop_gas_limit = 2800000000

abbrev pub default_gas_limit : ℕ
default_gas_limit = four_hop_gas_limit

unfoldable pub gas_limit_for_hops : ℕ → ℕ
gas_limit_for_hops hops =
    if leb hops 1
    then one_hop_gas_limit
    else (if hops == 2
        then two_hop_gas_limit
        else (if hops == 3
            then three_hop_gas_limit
            else (if hops == 4 then four_hop_gas_limit else default_gas_limit)))

-- `saturating_add` on u128.
abbrev pub saturating_add128 : ℕ → ℕ → ℕ
saturating_add128 a b = min (a + b) (2 ^ 128 - 1)

abbrev pub saturating_mul128 : ℕ → ℕ → ℕ
saturating_mul128 a b = min (a * b) (2 ^ 128 - 1)

unfoldable pub simple_competitive_gas_price : (expected_profit base_fee_wei : ℕ) → ℕ
simple_competitive_gas_price expected_profit base_fee_wei =
    let profit_scalar = if ltb 0 expected_profit then 1 else 0 in
    let dynamic_tip = saturating_add128 21000000 (1000000 * profit_scalar) in
    saturating_add128 base_fee_wei dynamic_tip

pub record GasConfig : Type 0 where
  pub gas_price_wei : ℕ  -- u128
  pub gas_per_hop : ℕ  -- u64

-- The gas limit of `calculate_gas_cost`, for a `usize` of 64 bits.
unfoldable pub cost_gas_limit : ℕ → ℕ
cost_gas_limit num_hops =
    if num_hops == 1
    then 300000000
    else (if num_hops == 2
        then 900000000
        else (if num_hops == 3
            then 1500000000
            else (if num_hops == 4
                then 2800000000
                else (if ltb 4 num_hops
                    then u64 (2800000000 + u64 ((num_hops - 4) * 500000000))
                    else 0))))

unfoldable pub calculate_gas_cost : GasConfig → ℕ → ℕ
calculate_gas_cost config num_hops = mul256 (cost_gas_limit num_hops) config.gas_price_wei

-- `checked_sub`.
unfoldable pub net_profit : GasConfig → ℕ → ℕ → Option ℕ
net_profit config gross_profit_wei num_hops =
    let gas_cost = calculate_gas_cost config num_hops in
    if leb gas_cost gross_profit_wei then some (gross_profit_wei - gas_cost) else none

-- ===== src/Tests/Execution.antt =====
-- src/execution at concrete values.
use arbitrage_bot_v.Base.{
  ℕ, ◌+◌, ◌*◌, ◌^◌, ◌≤◌, ◌<◌, ◌≡◌, refl, true, false, Option, some, none, [], ◌∷◌, ltb, ◌==◌,
  if◌then◌else◌, length, arith,
}
use arbitrage_bot_v.Base.Outcome.{done}
use arbitrage_bot_v.Execution.Nonce.{
  System, Steps, IsUnwrapped, here, next, reserves, loads, rounds,
}
use arbitrage_bot_v.Execution.Nonce.Interleavings.{IsConsistent, Descends, Steps-IsConsistent}
use arbitrage_bot_v.Execution.Nonce.{sync_round}
use arbitrage_bot_v.Execution.GasSchedule.{
  GasConfig, cost_gas_limit, net_profit, calculate_gas_cost,
}
use arbitrage_bot_v.Execution.FeePlan.{
  ExecutorConfig, compute_fee_plan, profit_per_gas, global_cap, plan_gas_limit, cap_from_profit,
  eip1559,
}
use arbitrage_bot_v.Execution.FeePlan.Bounds.{compute_fee_plan-spend}
use arbitrage_bot_v.Execution.Executor.{
  Executor, ArbitrageOpportunity, ArbitrageCall, execute, execute_opportunity, last_or_zero,
  build_params, hops_from, min_out, wrap_ends, set_last, hop_out, mul_fraction, net_expected,
  required_out, target_last,
}
use arbitrage_bot_v.Execution.Executor.Safety.{execute-bounds, execute_opportunity-no_loss}

abbrev fresh : System
fresh = record { manager = record { next_nonce = 5 }; issued = []; syncing = []; synced = [] }

-- A synchronisation to 9 that a reservation interrupts between its load and its exchange.
abbrev schedule :
    Steps fresh (record {
      manager = record { next_nonce = 9 };
      issued = 5 ∷ [];
      syncing = [];
      synced = 9 ∷ [];
    })
unfolding sync_round
schedule =
    next
      (next (next (next here (loads fresh 9)) (reserves _)) (
        rounds (record { next_nonce = 6 }) (5 ∷ []) []
          (record { chain_next_nonce = 9; current = 5 }) [] []))
      (rounds (record { next_nonce = 6 }) (5 ∷ []) [] (record { chain_next_nonce = 9; current = 6 })
        [] [])

abbrev config : ExecutorConfig
config = record {
  chain_id = 5000;
  v3_router_address = none;
  moe_router_address = none;
  slippage_scaled = 100000;
  gas_limit = 600000000;
  default_priority_fee_wei = 100000;
  global_fee_hard_cap_wei = 500000000;
  fee_mode = eip1559;
  min_net_profit_mnt_wei = 0;
  include_gas_cost_in_min_out = true;
  enforce_non_loss = true;
  fixed_gas_price_wei = none;
}

abbrev bot : Executor
bot = record { config = config; context = record { executor_contract = 77; wmnt_address = 1 } }

-- Two pairs of wmnt and a token, the second one dearer.
abbrev reserves_of : ℕ → Option (ℕ × ℕ)
reserves_of pool = if pool == 10 then some (10 ^ 24, 10 ^ 24) else some (10 ^ 24, 2 * 10 ^ 24)

abbrev first_of : ℕ → Option ℕ
first_of pool = if pool == 10 then some 1 else some 2

abbrev opportunity : ArbitrageOpportunity
opportunity = record {
  optimal_input_amount = 10 ^ 18;
  gas_cost_mnt_wei = 10 ^ 16;
  net_profit_mnt_wei = 9 * 10 ^ 17;
  tokens = 1 ∷ 2 ∷ 1 ∷ [];
  pools = 10 ∷ 11 ∷ [];
}

abbrev call : ArbitrageCall
call = record {
  contract = 77;
  params = record {
    amount_in = 1000000000000000000;
    token_path = 1 ∷ 2 ∷ 1 ∷ [];
    pool_addresses = 10 ∷ 11 ∷ [];
    expected_reserves_u112 = 10 ^ 24 ∷ 10 ^ 24 ∷ 10 ^ 24 ∷ 2 * 10 ^ 24 ∷ [];
    step_amounts_out = 996999005991991025 ∷ 1988014041846150555 ∷ [];
    min_amount_out = 1889212637661535500;
    expected_net_profit_mnt_wei = 900000000000000000;
  };
  outs = 996999005991991025 ∷ 1988014041846150554 ∷ [];
  plan = record {
    gas_limit = 450000000;
    base_fee_wei = 20000000;
    default_priority_fee_wei = 100000;
    total_cap_from_profit = 2000000000;
    cap_priority_fee_from_profit = 1980000000;
    initial_priority_fee = 1980000000;
    max_priority_fee_per_gas_wei = 480000000;
    max_fee_per_gas_wei = 500000000;
    effective_global_cap_wei = 500000000;
    is_small_profit = false;
  };
  fee_mode = eip1559;
}

sent_call : execute_opportunity reserves_of first_of bot opportunity ≡ done call
unfolding execute_opportunity build_params hops_from execute min_out wrap_ends set_last last_or_zero
    hop_out mul_fraction net_expected required_out target_last compute_fee_plan profit_per_gas
    global_cap plan_gas_limit cap_from_profit
sent_call = refl

executed_call : execute bot call.params ≡ done call
unfolding execute set_last last_or_zero net_expected required_out target_last compute_fee_plan
    profit_per_gas global_cap plan_gas_limit cap_from_profit
executed_call = refl

execute_opportunity-no_loss_example : (0 ≤ 9 * 10 ^ 17) × (10 ^ 18 ≤ last_or_zero call.outs)
execute_opportunity-no_loss_example =
    execute_opportunity-no_loss reserves_of first_of bot opportunity refl (omega arith) sent_call

execute-bounds_example :
    (call.params ≡ call.params)
    × (call.plan ≡ compute_fee_plan config 2 (net_expected call.params))
    × (length call.outs ≡ length call.params.step_amounts_out)
    × (required_out config call.params call.plan ≤ last_or_zero call.outs)
    × (last_or_zero call.outs ≤ last_or_zero call.params.step_amounts_out)
    × (call.plan.max_priority_fee_per_gas_wei ≤ call.plan.max_fee_per_gas_wei)
    × (true ≡ true → 0 < net_expected call.params)
execute-bounds_example = execute-bounds bot call.params executed_call

covered_tip :
    20000000 + config.default_priority_fee_wei
    ≤ (compute_fee_plan config 2 (10 ^ 17)).total_cap_from_profit
unfolding compute_fee_plan profit_per_gas plan_gas_limit cap_from_profit
covered_tip = omega arith

compute_fee_plan-spend_example :
    let plan = compute_fee_plan config 2 (10 ^ 17) in
    2 * (plan.gas_limit * plan.max_fee_per_gas_wei)
    ≤ (if ltb (10 ^ 17) 100000000000000000 then 3 else 2) * 10 ^ 17
compute_fee_plan-spend_example = compute_fee_plan-spend config 2 (10 ^ 17) covered_tip

abbrev prices : GasConfig
prices = record { gas_price_wei = 25000000; gas_per_hop = 150000 }

three_hop_net : net_profit prices (5 * 10 ^ 16) 3 ≡ some 12500000000000000
unfolding net_profit calculate_gas_cost cost_gas_limit
three_hop_net = refl

fresh-IsConsistent : IsConsistent fresh
unfolding IsConsistent Descends
fresh-IsConsistent = (tt, tt, tt)

schedule-IsUnwrapped : IsUnwrapped schedule
unfolding IsUnwrapped schedule
schedule-IsUnwrapped = (tt, omega arith)

Steps-IsConsistent_example :
    IsConsistent (record {
      manager = record { next_nonce = 9 };
      issued = 5 ∷ [];
      syncing = [];
      synced = 9 ∷ [];
    })
Steps-IsConsistent_example = Steps-IsConsistent schedule schedule-IsUnwrapped fresh-IsConsistent

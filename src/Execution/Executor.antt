-- ===== src/Execution/Executor.antt =====
-- src/execution/executor.rs from `build_params` on. The chain is a parameter: two requests give the
-- reserves and the first token of a pair, or nothing where they fail. `execute` stops at the
-- call that is sent; its bytes and its sending are not modelled.
pub mod Safety
use arbitrage_bot_v.Base.{
  ℕ, zero, suc, ◌+◌, ◌-◌, ◌*◌, ◌/◌, ◌^◌, Bool, true, false, ◌&&◌, ◌||◌, not, Option, some, none,
  List, [], ◌∷◌, map, ltb, ◌==◌, if◌then◌else◌, min, length, get_elem?,
}
use arbitrage_bot_v.Base.Word.{add256, mul256}
use arbitrage_bot_v.Base.Outcome.{Outcome, panicked, failed, done, ◌>>=◌, expect, ok_or}
use arbitrage_bot_v.Execution.GasSchedule.{saturating_mul128}
use arbitrage_bot_v.Execution.FeePlan.{ExecutorConfig, FeePlan, FeeMode, compute_fee_plan}

pub record ArbitrageOpportunity : Type 0 where
  pub optimal_input_amount : ℕ
  pub gas_cost_mnt_wei : ℕ
  pub net_profit_mnt_wei : ℕ
  pub tokens : List ℕ  -- path.tokens, by address
  pub pools : List ℕ  -- path.pools, by address

pub record ExecutionContext : Type 0 where
  pub executor_contract : ℕ
  pub wmnt_address : ℕ

pub record Executor : Type 0 where
  pub config : ExecutorConfig
  pub context : ExecutionContext

pub record ExecutionParams : Type 0 where
  pub amount_in : ℕ
  pub token_path : List ℕ
  pub pool_addresses : List ℕ
  pub expected_reserves_u112 : List ℕ
  pub step_amounts_out : List ℕ
  pub min_amount_out : ℕ
  pub expected_net_profit_mnt_wei : ℕ

pub data ExecutionError : Type 0 where
  request non_loss invalid_fees last_hop net_profit : ExecutionError

-- `saturating_add` on U256.
abbrev pub saturating_add256 : ℕ → ℕ → ℕ
saturating_add256 a b = min (a + b) (2 ^ 256 - 1)

-- `mul_fraction`, of a fraction in millionths; a fraction of 0 or less is cast to 0.
unfoldable pub mul_fraction : (value fraction_scaled : ℕ) → ℕ
mul_fraction value fraction_scaled =
    if fraction_scaled == 0 then 0 else mul256 value (min fraction_scaled 1000000) / 1000000

-- The last element is replaced, if there is one.
unfoldable pub set_last : ℕ → List ℕ → List ℕ
set_last y [] = []
set_last y (x ∷ []) = y ∷ []
set_last y (x ∷ z ∷ xs) = x ∷ set_last y (z ∷ xs)

set_first : ℕ → List ℕ → List ℕ
set_first y [] = []
set_first y (x ∷ xs) = y ∷ xs

-- `*outs.last().unwrap_or(&U256::ZERO)`.
unfoldable pub last_or_zero : List ℕ → ℕ
last_or_zero [] = 0
last_or_zero (x ∷ []) = x
last_or_zero (x ∷ z ∷ xs) = last_or_zero (z ∷ xs)

-- Both ends of the path become wmnt.
unfoldable pub wrap_ends : ℕ → List ℕ → List ℕ
unfolding set_first
wrap_ends wmnt tokens = set_last wmnt (set_first wmnt tokens)

-- One hop of the constant product with a fee of 0.3%.
unfoldable pub hop_out : (current_amount reserve_in reserve_out : ℕ) → ℕ
hop_out current_amount reserve_in reserve_out =
    let numerator = mul256 (mul256 current_amount 997) reserve_out in
    let denominator = add256 (mul256 reserve_in 1000) (mul256 current_amount 997) in
    if denominator == 0 then 0 else numerator / denominator

-- What the loop over the pools has collected: the reserves, the outputs, and the last amount.
pub record Hops : Type 0 where
  pub reserves : List ℕ
  pub outs : List ℕ
  pub amount : ℕ

unfoldable pub min_out : ExecutorConfig → ArbitrageOpportunity → ℕ → ℕ
min_out config opportunity current_amount =
    let expected_profit = current_amount - opportunity.optimal_input_amount in
    let min_amount_out = current_amount - mul_fraction expected_profit config.slippage_scaled in
    let required_out =
      saturating_add256 opportunity.optimal_input_amount opportunity.gas_cost_mnt_wei in
    if (config.include_gas_cost_in_min_out || config.enforce_non_loss)
    then (if ltb min_amount_out required_out then required_out else min_amount_out)
    else min_amount_out

module _ (get_reserves : ℕ → Option (ℕ × ℕ)) (token0 : ℕ → Option ℕ) where
  -- The loop from the pool of index `i` on.
  unfoldable pub hops_from : (token_path : List ℕ) → ℕ → List ℕ → ℕ → Outcome ExecutionError Hops
  hops_from token_path i [] current_amount =
      done (record { reserves = []; outs = []; amount = current_amount })
  hops_from token_path i (pool ∷ pools) current_amount = do
    reserves ← ok_or (get_reserves pool) request
    token_in ← expect (get_elem? token_path i)
    token_out ← expect (get_elem? token_path (suc i))
    first ← ok_or (token0 pool) request
    let out =
        if token_in == first
        then hop_out current_amount reserves.0 reserves.1
        else hop_out current_amount reserves.1 reserves.0
    rest ← hops_from token_path (suc i) pools out
    done (record {
      reserves = reserves.0 ∷ reserves.1 ∷ rest.reserves;
      outs = out ∷ rest.outs;
      amount = rest.amount;
    })

  unfoldable pub build_params :
      Executor → ArbitrageOpportunity → Outcome ExecutionError ExecutionParams
  build_params e opportunity = do
    let token_path = wrap_ends e.context.wmnt_address opportunity.tokens
    hops ← hops_from token_path 0 opportunity.pools opportunity.optimal_input_amount
    done (record {
      amount_in = opportunity.optimal_input_amount;
      token_path = token_path;
      pool_addresses = opportunity.pools;
      expected_reserves_u112 = hops.reserves;
      step_amounts_out = hops.outs;
      min_amount_out = min_out e.config opportunity hops.amount;
      expected_net_profit_mnt_wei = opportunity.net_profit_mnt_wei;
    })

-- The call of executeArbitrage, with its gas and its fees.
pub record ArbitrageCall : Type 0 where
  pub contract : ℕ
  pub params : ExecutionParams
  pub outs : List ℕ
  pub plan : FeePlan
  pub fee_mode : FeeMode

-- The profit that the fees are planned on.
unfoldable pub net_expected : ExecutionParams → ℕ
net_expected params =
    if params.expected_net_profit_mnt_wei == 0
    then params.min_amount_out - params.amount_in
    else params.expected_net_profit_mnt_wei

unfoldable pub required_out : ExecutorConfig → ExecutionParams → FeePlan → ℕ
required_out config params plan =
    if (config.include_gas_cost_in_min_out || config.enforce_non_loss) && not plan.is_small_profit
    then saturating_add256 params.amount_in
        (saturating_mul128 plan.gas_limit plan.max_fee_per_gas_wei)
    else params.min_amount_out

-- The last output less one, but not below what is required.
unfoldable pub target_last : (computed_last required : ℕ) → ℕ
target_last computed_last required =
    if ltb (computed_last - 1) required then required else computed_last - 1

unfoldable pub execute : Executor → ExecutionParams → Outcome ExecutionError ArbitrageCall
execute e params =
    let net = net_expected params in
    let plan = compute_fee_plan e.config (length params.token_path - 1) net in
    let required = required_out e.config params plan in
    let computed_last = last_or_zero params.step_amounts_out in
    if e.config.enforce_non_loss && (net == 0)
    then failed non_loss
    else (if ltb plan.max_fee_per_gas_wei plan.max_priority_fee_per_gas_wei
        then failed invalid_fees
        else (if ltb computed_last required
            then failed last_hop
            else done (record {
              contract = e.context.executor_contract;
              params = params;
              outs = set_last (target_last computed_last required) params.step_amounts_out;
              plan = plan;
              fee_mode = e.config.fee_mode;
            })))

unfoldable pub execute_opportunity :
    (ℕ → Option (ℕ × ℕ))
    → (ℕ → Option ℕ)
    → Executor
    → ArbitrageOpportunity
    → Outcome ExecutionError ArbitrageCall
execute_opportunity get_reserves token0 e opportunity =
    if ltb opportunity.net_profit_mnt_wei e.config.min_net_profit_mnt_wei
    then failed net_profit
    else (do params ← build_params get_reserves token0 e opportunity; execute e params)

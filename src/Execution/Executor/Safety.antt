-- ===== src/Execution/Executor/Safety.antt =====
-- What holds of every call that src/execution/executor.rs sends.
use arbitrage_bot_v.Base.{
  ℕ, ◌-◌, ◌^◌, ◌≤◌, ◌<◌, ◌≡◌, ◌≢◌, refl, ap, ◌∙◌, Bool-cases, inl, inr, true, false, ◌&&◌, List, [],
  ◌∷◌, Option, ltb, ◌==◌, length, arith,
}
use arbitrage_bot_v.Base.Outcome.{failed, done, chain_done}
use arbitrage_bot_v.Execution.FeePlan.{ExecutorConfig, FeePlan, compute_fee_plan}
use arbitrage_bot_v.Execution.FeePlan.Bounds.{compute_fee_plan-bounds}
use arbitrage_bot_v.Execution.Executor.{
  Executor, ExecutionParams, ArbitrageOpportunity, ArbitrageCall, invalid_fees, set_last,
  last_or_zero, net_expected, required_out, target_last, min_out, execute, build_params, hops_from,
  execute_opportunity,
}

length-set_last : (y : ℕ) (xs : List ℕ) → length (set_last y xs) ≡ length xs
unfolding set_last
length-set_last y [] = refl
length-set_last y (x ∷ []) = refl
length-set_last y (x ∷ z ∷ xs) = omega (arith, length-set_last y (z ∷ xs))

last-set_last : (y x : ℕ) (xs : List ℕ) → last_or_zero (set_last y (x ∷ xs)) ≡ y
unfolding set_last last_or_zero
last-set_last y x [] = refl
last-set_last y x (z ∷ []) = refl
last-set_last y x (z ∷ w ∷ xs) = last-set_last y z (w ∷ xs)

target_last-bounds :
    (computed required : ℕ)
    → required ≤ computed
    → (required ≤ target_last computed required) × (target_last computed required ≤ computed)
unfolding target_last
target_last-bounds computed required h = ground arith

-- The new last output is at least what is required and at most the computed one.
outs-bounds :
    (outs : List ℕ) (required : ℕ)
    → required ≤ last_or_zero outs
    → let new_outs = set_last (target_last (last_or_zero outs) required) outs in
      (required ≤ last_or_zero new_outs) × (last_or_zero new_outs ≤ last_or_zero outs)
unfolding set_last last_or_zero
outs-bounds [] required h = (h, omega arith)
outs-bounds (x ∷ xs) required h =
    let last = last-set_last (target_last (last_or_zero (x ∷ xs)) required) x xs in
    let bounds = target_last-bounds (last_or_zero (x ∷ xs)) required h in (omega arith, omega arith)

-- The call that is sent, with the guards that it passed.
execute_sent :
    (e : Executor) (params : ExecutionParams) {call : ArbitrageCall}
    → execute e params ≡ done call
    → let plan = compute_fee_plan e.config (length params.token_path - 1) (net_expected params) in
      let required = required_out e.config params plan in
      (call ≡ record {
        contract = e.context.executor_contract;
        params = params;
        outs =
            set_last
              (target_last (last_or_zero params.step_amounts_out) required)
              params.step_amounts_out;
        plan = plan;
        fee_mode = e.config.fee_mode;
      })
      × ((e.config.enforce_non_loss && (net_expected params == 0)) ≡ false)
      × (required ≤ last_or_zero params.step_amounts_out)
unfolding execute
execute_sent e params sent = ground arith

-- Where a call is sent it has the parameters and as many outputs as were computed; its last output
-- is at least the required one and at most the computed one; its tip is at most its fee; and the
-- profit that it expects is positive where losses are forbidden.
pub execute-bounds :
    (e : Executor) (params : ExecutionParams) {call : ArbitrageCall}
    → execute e params ≡ done call
    → (call.params ≡ params)
      × (call.plan ≡ compute_fee_plan e.config (length params.token_path - 1) (net_expected params))
      × (length call.outs ≡ length params.step_amounts_out)
      × (required_out e.config params call.plan ≤ last_or_zero call.outs)
      × (last_or_zero call.outs ≤ last_or_zero params.step_amounts_out)
      × (call.plan.max_priority_fee_per_gas_wei ≤ call.plan.max_fee_per_gas_wei)
      × (e.config.enforce_non_loss ≡ true → 0 < net_expected params)
execute-bounds e params sent =
    let (call_is, profit, enough) = execute_sent e params sent in
    let plan = compute_fee_plan e.config (length params.token_path - 1) (net_expected params) in
    let required = required_out e.config params plan in
    let bounds = outs-bounds params.step_amounts_out required enough in
    let count =
      length-set_last (target_last (last_or_zero params.step_amounts_out) required)
        params.step_amounts_out in
    let fees =
      compute_fee_plan-bounds e.config (length params.token_path - 1) (net_expected params) in
    (
      ap (λ (c : ArbitrageCall). c.params) call_is,
      ap (λ (c : ArbitrageCall). c.plan) call_is,
      ap (λ (c : ArbitrageCall). length c.outs) call_is ∙ count,
      rw call_is bounds.0,
      rw call_is bounds.1,
      rw call_is (omega (arith, fees)),
      λ on. ground arith,
    )

-- A fee plan never trips the guard on its own tip.
pub execute_never_invalid_fees :
    (e : Executor) (params : ExecutionParams) → execute e params ≢ failed invalid_fees
unfolding execute
execute_never_invalid_fees e params trips =
    let fees =
      compute_fee_plan-bounds e.config (length params.token_path - 1) (net_expected params) in
    ground arith

min_out-le :
    (config : ExecutorConfig) (opportunity : ArbitrageOpportunity) (amount : ℕ)
    → config.enforce_non_loss ≡ true
    → opportunity.optimal_input_amount < 2 ^ 256
    → opportunity.optimal_input_amount ≤ min_out config opportunity amount
unfolding min_out
min_out-le config opportunity amount on fits = ground arith

required_out-le :
    (config : ExecutorConfig) (params : ExecutionParams) (plan : FeePlan)
    → config.enforce_non_loss ≡ true
    → params.amount_in < 2 ^ 256
    → params.amount_in ≤ params.min_amount_out
    → params.amount_in ≤ required_out config params plan
unfolding required_out
required_out-le config params plan on fits le = ground arith

module _ (get_reserves : ℕ → Option (ℕ × ℕ)) (token0 : ℕ → Option ℕ) where
  build_params_lem :
      (e : Executor) (opportunity : ArbitrageOpportunity) {params : ExecutionParams}
      → build_params get_reserves token0 e opportunity ≡ done params
      → (amount : ℕ) × (params.amount_in ≡ opportunity.optimal_input_amount)
        × (params.min_amount_out ≡ min_out e.config opportunity amount)
  unfolding build_params
  build_params_lem e opportunity built =
      let (hops, _, made) =
        chain_done (hops_from get_reserves token0 _ 0 opportunity.pools _) _ built in
      (hops.amount, ground arith, ground arith)

  execute_opportunity_parts :
      (e : Executor) (opportunity : ArbitrageOpportunity) {call : ArbitrageCall}
      → execute_opportunity get_reserves token0 e opportunity ≡ done call
      → (e.config.min_net_profit_mnt_wei ≤ opportunity.net_profit_mnt_wei)
        × ((params : ExecutionParams) × (build_params get_reserves token0 e opportunity
              ≡ done params)
            × (execute e params ≡ done call))
  unfolding execute_opportunity
  execute_opportunity_parts e opportunity sent =
      elim (Bool-cases (ltb opportunity.net_profit_mnt_wei e.config.min_net_profit_mnt_wei)) [
        | inl low ↦ absurd (ground arith)
        | inr enough ↦ (
          ground arith,
          chain_done (build_params get_reserves token0 e opportunity) (execute e) (ground arith),
        )
      ]

  -- Where losses are forbidden, every call that is sent for an opportunity nets at least the
  -- configured minimum by the opportunity's own figure, and demands of its last hop at least the
  -- amount that it puts in, whatever the chain answered and whatever else is configured.
  pub execute_opportunity-no_loss :
      (e : Executor) (opportunity : ArbitrageOpportunity) {call : ArbitrageCall}
      → e.config.enforce_non_loss ≡ true
      → opportunity.optimal_input_amount < 2 ^ 256
      → execute_opportunity get_reserves token0 e opportunity ≡ done call
      → (e.config.min_net_profit_mnt_wei ≤ opportunity.net_profit_mnt_wei)
        × (opportunity.optimal_input_amount ≤ last_or_zero call.outs)
  execute_opportunity-no_loss e opportunity {call} on fits sent =
      let (worth, (params, built, executed)) = execute_opportunity_parts e opportunity sent in
      let (amount, input, minimum) = build_params_lem e opportunity built in
      let (_, _, _, enough, _, _, _) = execute-bounds e params executed in
      let least = min_out-le e.config opportunity amount on fits in
      let required = required_out-le e.config params call.plan on (omega arith) (omega arith) in
      (worth, omega arith)

-- ===== src/Agni/Swaps.antt =====
-- src/amms/agni/mod.rs: the swaps of an Agni pool, with their own loop.
use arbitrage_bot_v.Base.{
  ℕ, zero, suc, ◌+◌, ◌-◌, ◌%◌, ◌^◌, Bool, ◌&&◌, not, Option, none, some, ltb, ◌==◌, if◌then◌else◌,
}
use arbitrage_bot_v.Base.Outcome.{Outcome, failed, done, ◌>>=◌}
use arbitrage_bot_v.Base.Word.{add256, sub256}
use arbitrage_bot_v.Base.Signed.{clamp_i32, add128, neg128, is_negative128}
use arbitrage_bot_v.TickPool.{
  Info, TickMath, SwapError, liquidity_underflow, map_err, CurrentState, resume, finish,
}
use arbitrage_bot_v.Agni.{AgniPool}

-- `map_or(0, |i| i.liquidity_net)`.
abbrev pub liquidity_net_or_zero : Option Info → ℕ
liquidity_net_or_zero none = 0
liquidity_net_or_zero (some i) = i.liquidity_net

module _ {M : Type 0} (math : TickMath M) (p : AgniPool) (zero_for_one : Bool)
    (sqrt_price_limit : ℕ) where
  -- The liquidity of the next round, where the price has moved to an initialized tick.
  abbrev pub net_liquidity : (tick_next liquidity : ℕ) → Outcome (SwapError M) ℕ
  net_liquidity tick_next liquidity =
      let net = liquidity_net_or_zero (p.ticks tick_next) in
      let liq_net = if zero_for_one then neg128 net else net in
      if is_negative128 liq_net
      then (if ltb liquidity (neg128 liq_net)
          then failed liquidity_underflow
          else done (liquidity - neg128 liq_net))
      else done (add128 liquidity liq_net)

  -- The body of the loop.
  unfoldable pub agni_step : CurrentState → Outcome (SwapError M) CurrentState
  agni_step s = do
    found ← map_err (
        math.next_initialized_tick_within_one_word p.tick_bitmap s.tick p.tick_spacing zero_for_one)
    let tick_next = clamp_i32 found.0 math.min_tick math.max_tick
    sqrt_price_next ← map_err (math.get_sqrt_ratio_at_tick tick_next)
    let target =
        if zero_for_one
        then (if ltb sqrt_price_next sqrt_price_limit then sqrt_price_limit else sqrt_price_next)
        else if ltb sqrt_price_limit sqrt_price_next
        then sqrt_price_limit
        else sqrt_price_next
    amounts ← map_err (
        math.compute_swap_step s.sqrt_price_x_96 target s.liquidity s.amount_specified_remaining
          p.fee)
    let taken = record s {
      sqrt_price_x_96 = amounts.0;
      amount_specified_remaining = sub256 s.amount_specified_remaining (add256 amounts.1 amounts.3);
      amount_calculated = sub256 s.amount_calculated amounts.2;
    }
    if amounts.0 == sqrt_price_next
        then (do
          liquidity ← if found.1 then net_liquidity tick_next s.liquidity else done s.liquidity
          done (record taken {
            liquidity = liquidity;
            tick = if zero_for_one then (tick_next + 2 ^ 32 - 1) % 2 ^ 32 else tick_next;
          }))
        else if not (amounts.0 == s.sqrt_price_x_96)
        then (do
          tick ← map_err (math.get_tick_at_sqrt_ratio amounts.0)
          done (record taken { tick = tick }))
        else done taken

  -- `none`: the fuel is used up.
  unfoldable pub agni_loop : ℕ → CurrentState → Option (Outcome (SwapError M) CurrentState)
  agni_loop zero s = none
  agni_loop (suc fuel) s =
      if not (s.amount_specified_remaining == 0) && not (s.sqrt_price_x_96 == sqrt_price_limit)
      then resume (agni_step s) (agni_loop fuel)
      else some (done s)

abbrev pub start : AgniPool → ℕ → CurrentState
start p amount_in = record {
  amount_specified_remaining = amount_in;
  amount_calculated = 0;
  sqrt_price_x_96 = p.sqrt_price;
  tick = p.tick;
  liquidity = p.liquidity;
}

module _ {M : Type 0} (math : TickMath M) where
  unfoldable pub simulate_swap : ℕ → AgniPool → ℕ → ℕ → ℕ → Option (Outcome (SwapError M) ℕ)
  simulate_swap fuel p base_token quote_token amount_in =
      let zero_for_one = base_token == p.token_a.address in
      let limit =
        if zero_for_one then add256 math.min_sqrt_ratio 1 else sub256 math.max_sqrt_ratio 1 in
      if amount_in == 0
      then some (done 0)
      else finish (λ s. sub256 0 s.amount_calculated)
          (agni_loop math p zero_for_one limit fuel (start p amount_in))

  -- The swap runs on a clone that it does not change, and the clone is what is written back.
  unfoldable pub simulate_swap_mut :
      ℕ → AgniPool → ℕ → ℕ → ℕ → Option (Outcome (SwapError M) (AgniPool × ℕ))
  simulate_swap_mut fuel p base_token q amount_in =
      let tmp = p in
      finish
        (λ out. (
          record p { sqrt_price = tmp.sqrt_price; tick = tmp.tick; liquidity = tmp.liquidity },
          out,
        ))
        (simulate_swap fuel tmp base_token q amount_in)

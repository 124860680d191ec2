-- ===== src/UniswapV3/Mutating.antt =====
-- src/amms/uniswap_v3/mod.rs: the swap that changes the pool, which has a loop of its own.
use arbitrage_bot_v.Base.{
  ℕ, zero, suc, ◌+◌, ◌-◌, ◌%◌, ◌^◌, Bool, ◌&&◌, not, Option, none, some, ltb, ◌==◌, if◌then◌else◌,
}
use arbitrage_bot_v.Base.Outcome.{Outcome, failed, done, ◌>>=◌}
use arbitrage_bot_v.Base.Word.{add256, sub256}
use arbitrage_bot_v.Base.Signed.{clamp_i32, add128, neg128, is_negative128}
use arbitrage_bot_v.TickPool.{
  TickMath, SwapError, liquidity_underflow, map_err, CurrentState, net_of, resume, finish,
}
use arbitrage_bot_v.UniswapV3.{UniswapV3Pool}

module _ {M : Type 0} (math : TickMath M) (p : UniswapV3Pool) (zero_for_one : Bool)
    (limit : ℕ) where
  -- The liquidity of the next round, where the price has moved to an initialized tick.
  abbrev pub recomputed_liquidity : (tick_next liquidity : ℕ) → Outcome (SwapError M) ℕ
  recomputed_liquidity tick_next liquidity =
      let stored = net_of (p.ticks tick_next) in
      let liquidity_net = if zero_for_one then neg128 stored else stored in
      if is_negative128 liquidity_net
      then (if ltb liquidity (neg128 liquidity_net)
          then failed liquidity_underflow
          else done (liquidity - neg128 liquidity_net))
      else done (add128 liquidity liquidity_net)

  -- The body of the loop.
  unfoldable pub mutating_step : CurrentState → Outcome (SwapError M) CurrentState
  mutating_step s = do
    found ← map_err (
        math.next_initialized_tick_within_one_word p.tick_bitmap s.tick p.tick_spacing zero_for_one)
    let tick_next = clamp_i32 found.0 math.min_tick math.max_tick
    sqrt_price_next ← map_err (math.get_sqrt_ratio_at_tick tick_next)
    let target =
        if zero_for_one
        then (if ltb sqrt_price_next limit then limit else sqrt_price_next)
        else if ltb limit sqrt_price_next
        then limit
        else sqrt_price_next
    amounts ← map_err (
        math.compute_swap_step s.sqrt_price_x_96 target s.liquidity s.amount_specified_remaining
          p.fee)
    let remaining = sub256 s.amount_specified_remaining (add256 amounts.1 amounts.3)
    let calculated = sub256 s.amount_calculated amounts.2
    if amounts.0 == sqrt_price_next
        then (do
          liquidity ←
              if found.1 then recomputed_liquidity tick_next s.liquidity else done s.liquidity
          done (record {
            amount_specified_remaining = remaining;
            amount_calculated = calculated;
            sqrt_price_x_96 = amounts.0;
            tick = if zero_for_one then (tick_next + 2 ^ 32 - 1) % 2 ^ 32 else tick_next;
            liquidity = liquidity;
          }))
        else (do
          tick ←
              if not (amounts.0 == s.sqrt_price_x_96)
              then map_err (math.get_tick_at_sqrt_ratio amounts.0)
              else done s.tick
          done (record {
            amount_specified_remaining = remaining;
            amount_calculated = calculated;
            sqrt_price_x_96 = amounts.0;
            tick = tick;
            liquidity = s.liquidity;
          }))

  -- `none`: the fuel is used up.
  unfoldable pub mutating_loop : ℕ → CurrentState → Option (Outcome (SwapError M) CurrentState)
  mutating_loop zero s = none
  mutating_loop (suc fuel) s =
      if not (s.amount_specified_remaining == 0) && not (s.sqrt_price_x_96 == limit)
      then resume (mutating_step s) (mutating_loop fuel)
      else some (done s)

-- The pool that the swap leaves, and its amount out.
abbrev pub settled : UniswapV3Pool → CurrentState → UniswapV3Pool × ℕ
settled p s = (
  record p { liquidity = s.liquidity; sqrt_price = s.sqrt_price_x_96; tick = s.tick },
  sub256 0 s.amount_calculated,
)

unfoldable pub simulate_swap_mut :
    {M : Type 0}
    → TickMath M
    → ℕ
    → UniswapV3Pool
    → ℕ
    → ℕ
    → ℕ
    → Option (Outcome (SwapError M) (UniswapV3Pool × ℕ))
simulate_swap_mut math fuel p base_token quote_token amount_in =
    let zero_for_one = base_token == p.token_a.address in
    let limit =
      if zero_for_one then add256 math.min_sqrt_ratio 1 else sub256 math.max_sqrt_ratio 1 in
    if amount_in == 0
    then some (done (p, 0))
    else finish (settled p) (
        mutating_loop math p zero_for_one limit fuel (record {
          amount_specified_remaining = amount_in;
          amount_calculated = 0;
          sqrt_price_x_96 = p.sqrt_price;
          tick = p.tick;
          liquidity = p.liquidity;
        }))

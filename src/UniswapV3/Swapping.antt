-- ===== src/UniswapV3/Swapping.antt =====
-- The swaps of a Uniswap V3 pool: they end, and the one that changes the pool agrees with the one
-- that does not.
use arbitrage_bot_v.Base.{
  ℕ, zero, suc, Bool, ◌+◌, ◌^◌, ◌≤◌, ◌<◌, ◌≡◌, refl, sym, ap, subst, inl, inr, arith, Bool-cases,
  ==_iff, ◌==◌, some,
}
use arbitrage_bot_v.Base.Outcome.{Outcome, done}
use arbitrage_bot_v.Base.Signed.{rank32}
use arbitrage_bot_v.TickPool.{
  TickMath, SwapError, CurrentState, running, finish, amount_out, sqrt_price_limit_x_96, swap_step,
  swap_loop, moved, crossed_liquidity, swap_target_sqrt_ratio,
}
use arbitrage_bot_v.TickPool.Math.{IsTickMath}
use arbitrage_bot_v.TickPool.Progress.{distance}
use arbitrage_bot_v.TickPool.Loop.{Ended, swap_loop-Ends}
use arbitrage_bot_v.TickPool.Copies.{calling-alike, swap_loop_alike}
use arbitrage_bot_v.UniswapV3.{UniswapV3Pool, start, swap_from, simulate_swap}
use arbitrage_bot_v.UniswapV3.Mutating.{mutating_step, mutating_loop, settled, simulate_swap_mut}

module _ {M : Type 0} (math : TickMath M) where
  -- The tick of a pool is one of those that have a ratio.
  abbrev pub HasTick : ℕ → Type 0
  HasTick tick = (rank32 math.min_tick ≤ rank32 tick) × (rank32 tick ≤ rank32 math.max_tick)

  -- A swap that ends with `o` has sold its whole input or met the limit of the price.
  abbrev pub EndedFrom : UniswapV3Pool → ℕ → ℕ → Outcome (SwapError M) CurrentState → Type 0
  EndedFrom p base_token amount_in =
      Ended math p.tick_bitmap p.ticks p.tick_spacing p.fee (base_token == p.token_a.address)
        (start math p amount_in)

  near_end :
      (law : IsTickMath math) (p : UniswapV3Pool) (base_token amount_in : ℕ)
      → rank32 math.min_tick ≤ rank32 p.tick
      → rank32 p.tick ≤ rank32 math.max_tick
      → distance math p.tick_bitmap p.ticks p.tick_spacing p.fee
            (base_token == p.token_a.address)
            (start math p amount_in)
          + 2
        ≤ 2 ^ 21
  near_end law p base_token amount_in least greatest =
      let lowest = law.least in
      let highest = law.greatest in
      elim (Bool-cases (base_token == p.token_a.address)) [
        | inl down ↦ rw down (omega arith)
        | inr up ↦ rw up (omega arith)
      ]

  -- With a library of ticks that behaves as documented, on a pool whose tick has a ratio and
  -- for an input below 2^255, 2^21 rounds are enough: the loop of a swap ends, in an error or
  -- where the input is used up or the limit of the price is met, and it takes no more than the
  -- input.
  pub simulate_swap-ends :
      (law : IsTickMath math) (p : UniswapV3Pool) (fuel base_token quote_token amount_in : ℕ)
      → HasTick p.tick
      → amount_in < 2 ^ 255
      → 2 ^ 21 ≤ fuel
      → (o : Outcome (SwapError M) CurrentState) × (simulate_swap math fuel p base_token quote_token
            amount_in
          ≡ finish amount_out (some o))
        × EndedFrom p base_token amount_in o
  unfolding simulate_swap running amount_out
  simulate_swap-ends law p fuel base_token quote_token amount_in (least, greatest) small enough =
      let direction = base_token == p.token_a.address in
      let near : distance math p.tick_bitmap p.ticks p.tick_spacing p.fee direction
              (start math p amount_in)
            + 2
          ≤ 2 ^ 21 =
        near_end law p base_token amount_in least greatest in
      elim (Bool-cases (amount_in == 0)) [
        | inl nothing ↦
            let none_left : amount_in ≡ 0 = (==_iff amount_in 0).0 nothing in
            (done (start math p amount_in), rw nothing refl, (ground arith, omega arith))
        | inr something ↦
            let (o, ended, well) =
              swap_loop-Ends math p.tick_bitmap p.ticks p.tick_spacing p.fee direction law fuel
                (start math p amount_in) (omega arith) small in
            (o, rw something (rw ended), well)
      ]

  module _ (p : UniswapV3Pool) (zero_for_one : Bool) where
    abbrev limit_of : ℕ
    limit_of = sqrt_price_limit_x_96 math p.tick_bitmap p.ticks p.tick_spacing p.fee zero_for_one

    mutating_step-agrees :
        (s : CurrentState)
        → mutating_step math p zero_for_one limit_of s
          ≡ swap_step math p.tick_bitmap p.ticks p.tick_spacing p.fee zero_for_one s
    unfolding mutating_step moved crossed_liquidity swap_target_sqrt_ratio
    mutating_step-agrees s =
        calling-alike math p.tick_bitmap p.ticks p.tick_spacing p.fee zero_for_one s _
          (λ found next amounts. elim (Bool-cases (amounts.0 == next)) [
            | inl crosses ↦ rw crosses refl
            | inr within ↦ rw within (elim (Bool-cases (amounts.0 == s.sqrt_price_x_96)) [
              | inl stays ↦ rw stays refl
              | inr moves ↦ rw moves refl
            ])
          ])

    mutating_loop-agrees :
        (fuel : ℕ) (s : CurrentState)
        → mutating_loop math p zero_for_one limit_of fuel s
          ≡ swap_loop math p.tick_bitmap p.ticks p.tick_spacing p.fee zero_for_one fuel s
    unfolding mutating_loop running
    mutating_loop-agrees =
        swap_loop_alike math p.tick_bitmap p.ticks p.tick_spacing p.fee zero_for_one
          (mutating_loop math p zero_for_one limit_of) (mutating_step math p zero_for_one limit_of)
          mutating_step-agrees (λ s. refl) (λ fuel s. refl)

  -- The pool with the liquidity, the price and the tick of a state of the loop.
  abbrev pub moved_to : UniswapV3Pool → CurrentState → UniswapV3Pool
  moved_to p s = record p { liquidity = s.liquidity; sqrt_price = s.sqrt_price_x_96; tick = s.tick }

  nothing_swapped :
      (p : UniswapV3Pool) (fuel base_token : ℕ)
      → 0 < fuel
      → swap_from math p fuel base_token 0 ≡ some (done (start math p 0))
  unfolding swap_loop running
  nothing_swapped p zero base_token some_fuel = absurd (omega arith)
  nothing_swapped p (suc fuel) base_token some_fuel = refl

  -- Where at least one round is allowed, a pool is left with the liquidity, the price and the tick
  -- at which the loop of the swap that changes nothing stops, all else as it was, and both swaps
  -- give the amount out of that state; where that loop fails, panics or runs out of rounds, so do
  -- both swaps.
  pub simulate_swap_mut-agrees :
      (p : UniswapV3Pool) (fuel base_token quote_token amount_in : ℕ)
      → 0 < fuel
      → (simulate_swap math fuel p base_token quote_token amount_in
          ≡ finish amount_out (swap_from math p fuel base_token amount_in))
        × (simulate_swap_mut math fuel p base_token quote_token amount_in
            ≡ finish
                (λ s. (moved_to p s, amount_out s))
                (swap_from math p fuel base_token amount_in))
  unfolding simulate_swap simulate_swap_mut amount_out sqrt_price_limit_x_96
  simulate_swap_mut-agrees p fuel base_token quote_token amount_in some_fuel =
      elim (Bool-cases (amount_in == 0)) [
        | inl nothing ↦
            let none_in : amount_in ≡ 0 = (==_iff amount_in 0).0 nothing in
            let stops =
              subst (λ (a : ℕ). swap_from math p fuel base_token a ≡ some (done (start math p a)))
                (sym none_in) (nothing_swapped p fuel base_token some_fuel) in
            rw (nothing, stops) (refl, refl)
        | inr something ↦ rw something (
          refl,
          ap (finish (settled p)) (
              mutating_loop-agrees p (base_token == p.token_a.address) fuel
                (start math p amount_in)),
        )
      ]

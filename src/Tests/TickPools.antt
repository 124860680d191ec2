-- ===== src/Tests/TickPools.antt =====
-- src/amms/uniswap_v3/mod.rs and src/amms/agni/mod.rs at concrete values, with a small library of
-- ticks in place of `uniswap_v3_math`.
use arbitrage_bot_v.Base.{
  ℕ, ◌+◌, ◌-◌, ◌/◌, ◌%◌, ◌^◌, ◌≤◌, ◌<◌, ◌≡◌, refl, ◌⊎◌, inr, arith, Bool, true, false, ltb, ◌==◌,
  if◌then◌else◌, none, some,
}
use arbitrage_bot_v.Base.Outcome.{Outcome, failed, done, ◌>>=◌}
use arbitrage_bot_v.Base.Signed.{rank32, neg128, is_negative128}
use arbitrage_bot_v.Base.Word.{add256}
use arbitrage_bot_v.Base.HashMap.{HashMap}
use arbitrage_bot_v.Base.Digit.{digit-zero}
use arbitrage_bot_v.TickPool.{
  TickMath, Info, SwapError, CurrentState, finish, amount_out, mint_event, burn_event,
  liquidity_underflow, crossed_liquidity,
}
use arbitrage_bot_v.TickPool.Math.{IsTickMath, IsPlacing}
use arbitrage_bot_v.TickPool.Bitmap.{place, bit_at}
use arbitrage_bot_v.TickPool.Crossing.{crossed_liquidity-back}
use arbitrage_bot_v.UniswapV3.{UniswapV3Pool, sync, simulate_swap, swap_from, modify_position}
use arbitrage_bot_v.UniswapV3.Mutating.{simulate_swap_mut, mutating_loop, mutating_step}
use arbitrage_bot_v.UniswapV3.Positions.{IsRange}
use arbitrage_bot_v.UniswapV3.Consistency.{IsConsistent}
use arbitrage_bot_v.UniswapV3.Events.{Keeps, sync-IsConsistent}
use arbitrage_bot_v.UniswapV3.Restoring.{sync-mint_burn}
use arbitrage_bot_v.UniswapV3.Swapping.{
  EndedFrom, moved_to, simulate_swap-ends, simulate_swap_mut-agrees,
}
use arbitrage_bot_v.Agni.{AgniPool}
use arbitrage_bot_v.Agni
use arbitrage_bot_v.Agni.Swaps.{agni_loop, agni_step}
use arbitrage_bot_v.Agni.Swaps
use arbitrage_bot_v.Agni.Unmoved.{as_v3, simulate_swap_mut-unmoved}
use arbitrage_bot_v.Agni.Flips.{map_done}
use arbitrage_bot_v.Agni.Agreement.{modify_position-as_v3}

-- Ticks of one size, with 2^96 as the ratio of all but the two ends.
abbrev toy_ratio : ℕ → ℕ
toy_ratio tick =
    if tick == 2 ^ 32 - 887_272
    then 4_295_128_739
    else if tick == 887_272
    then 1_461_446_703_485_210_103_287_273_052_203_988_822_378_723_970_342
    else 2 ^ 96 + tick

-- The next tick is a neighbour, and every tick is initialized.
abbrev toy_next : HashMap ℕ → ℕ → ℕ → Bool → Outcome ℕ (ℕ × Bool)
toy_next tick_bitmap tick spacing true = done (tick % 2 ^ 32, true)
toy_next tick_bitmap tick spacing false =
    if ltb (rank32 tick) (2 ^ 32 - 1) then done ((tick + 1) % 2 ^ 32, true) else failed 0

-- A step takes the liquidity as its input, or what remains of the input.
abbrev toy_step : ℕ → ℕ → ℕ → ℕ → ℕ → Outcome ℕ (ℕ × ℕ × ℕ × ℕ)
toy_step price target liquidity remaining fee =
    if ltb liquidity remaining
    then done (target, liquidity, liquidity / 2, 0)
    else done (price, remaining, remaining / 2, 0)

abbrev toy_math : TickMath ℕ
toy_math = record {
  min_tick = 2 ^ 32 - 887_272;
  max_tick = 887_272;
  min_sqrt_ratio = 4_295_128_739;
  max_sqrt_ratio = 1_461_446_703_485_210_103_287_273_052_203_988_822_378_723_970_342;
  next_initialized_tick_within_one_word = toy_next;
  get_sqrt_ratio_at_tick = λ tick. done (toy_ratio tick);
  get_tick_at_sqrt_ratio = λ ratio. done 0;
  compute_swap_step = toy_step;
  position = λ compressed. (compressed / 256 % 2 ^ 16, compressed % 256);
}

toy_spends :
    (price target liquidity remaining fee price' amount_in amount_out fee_amount : ℕ)
    → remaining < 2 ^ 255
    → toy_step price target liquidity remaining fee
      ≡ done (price', amount_in, amount_out, fee_amount)
    → (add256 amount_in fee_amount ≤ remaining)
      × ((price' ≡ target) ⊎ (add256 amount_in fee_amount ≡ remaining))
toy_spends price target liquidity remaining fee price' amount_in amount_out fee_amount small paid =
    ground arith

toy_math-IsTickMath : IsTickMath toy_math
toy_math-IsTickMath = record {
  least = refl;
  greatest = refl;
  least_ratio = λ ratio reached. ground arith;
  greatest_ratio = λ ratio reached. ground arith;
  ratios = omega arith;
  fits = omega arith;
  below = λ tick_bitmap tick spacing next initialized found. ground arith;
  above = λ tick_bitmap tick spacing next initialized found. ground arith;
  spends = toy_spends;
}

toy_math-IsPlacing : IsPlacing toy_math
toy_math-IsPlacing = record {
  in_word = λ compressed. omega arith;
  apart = λ c d word_c word_d small_c small_d same. ground arith;
}

abbrev empty_pool : UniswapV3Pool
empty_pool = record {
  address = 1;
  token_a = record { address = 2; decimals = 6 };
  token_b = record { address = 3; decimals = 18 };
  liquidity = 100;
  sqrt_price = 2 ^ 96;
  fee = 500;
  tick = 5;
  tick_spacing = 10;
  tick_bitmap = λ _. none;
  ticks = λ _. none;
}

-- One position from -10 on.
abbrev stored_info : Info
stored_info = record { liquidity_gross = 100; liquidity_net = 100; initialized = true }

abbrev stored_ticks : HashMap Info
stored_ticks = λ t. if t == 2 ^ 32 - 10 then some stored_info else none

abbrev stored_pool : UniswapV3Pool
stored_pool = record empty_pool { ticks = stored_ticks }

empty_pool-IsConsistent : IsConsistent toy_math empty_pool
empty_pool-IsConsistent = record {
  marks = λ t usable. digit-zero (toy_math.position (place 10 t)).1;
}

abbrev range_example : IsRange 10 (2 ^ 32 - 10) 20
range_example = record {
  positive = omega arith;
  small = omega arith;
  lower = record { word = omega arith; bounded = omega arith; multiple = omega arith };
  upper = record { word = omega arith; bounded = omega arith; multiple = omega arith };
  apart = omega arith;
}

sync-IsConsistent_example :
    Keeps toy_math (sync toy_math (mint_event (2 ^ 32 - 10) 20 7) empty_pool)
sync-IsConsistent_example =
    sync-IsConsistent toy_math toy_math-IsPlacing empty_pool (mint_event (2 ^ 32 - 10) 20 7)
      (range_example, omega arith) empty_pool-IsConsistent

sync-mint_burn_example :
    (q : UniswapV3Pool) × (r : UniswapV3Pool) × (sync toy_math
        (mint_event (2 ^ 32 - 10) 20 7)
        stored_pool
      ≡ done q)
    × (sync toy_math (burn_event (2 ^ 32 - 10) 20 7) q ≡ done r)
    × (r ≡ record stored_pool { tick_bitmap = r.tick_bitmap })
    × ((at : ℕ × ℕ) → bit_at r.tick_bitmap at ≡ bit_at stored_pool.tick_bitmap at)
sync-mint_burn_example =
    sync-mint_burn toy_math toy_math-IsPlacing stored_pool (2 ^ 32 - 10) 20 7 range_example
      (omega arith) (omega arith) (omega arith) (omega arith, omega arith, omega arith, refl) tt

simulate_swap-ends_example :
    (o : Outcome (SwapError ℕ) CurrentState) × (simulate_swap toy_math (2 ^ 21) stored_pool 2 3 1000
      ≡ finish amount_out (some o))
    × EndedFrom toy_math stored_pool 2 1000 o
simulate_swap-ends_example =
    simulate_swap-ends toy_math toy_math-IsTickMath stored_pool (2 ^ 21) 2 3 1000
      (omega arith, omega arith) (omega arith) (omega arith)

simulate_swap_mut-agrees_example :
    (simulate_swap toy_math 10 stored_pool 2 3 150
      ≡ finish amount_out (swap_from toy_math stored_pool 10 2 150))
    × (simulate_swap_mut toy_math 10 stored_pool 2 3 150
        ≡ finish
            (λ s. (moved_to toy_math stored_pool s, amount_out s))
            (swap_from toy_math stored_pool 10 2 150))
simulate_swap_mut-agrees_example =
    simulate_swap_mut-agrees toy_math stored_pool 10 2 3 150 (omega arith)

crossed_liquidity-back_example :
    ((crossed_liquidity toy_math (λ _. none) stored_ticks 10 500 true (2 ^ 32 - 10) 150
        ≡ failed liquidity_underflow)
      × (is_negative128 (neg128 100) ≡ true)
      × (150 < neg128 (neg128 100)))
    ⊎ ((crossed_liquidity toy_math (λ _. none) stored_ticks 10 500 true (2 ^ 32 - 10) 150
          >>= crossed_liquidity toy_math (λ _. none) stored_ticks 10 500 false (2 ^ 32 - 10))
        ≡ done 150)
crossed_liquidity-back_example =
    crossed_liquidity-back toy_math (λ _. none) stored_ticks 10 500 (2 ^ 32 - 10) 150 true
      (omega arith) (omega arith) (omega arith)

abbrev agni_pool : AgniPool
agni_pool = record {
  address = 1;
  token_a = record { address = 2; decimals = 6 };
  token_b = record { address = 3; decimals = 18 };
  liquidity = 100;
  sqrt_price = 2 ^ 96;
  fee = 500;
  tick = 5;
  tick_spacing = 10;
  tick_bitmap = λ _. none;
  ticks = stored_ticks;
  fee_protocol = 222_825_800;
}

agni-unmoved_example :
    Swaps.simulate_swap_mut toy_math 100 agni_pool 2 3 1000
    ≡ finish (λ out. (agni_pool, out)) (simulate_swap toy_math 100 (as_v3 agni_pool) 2 3 1000)
agni-unmoved_example = simulate_swap_mut-unmoved toy_math agni_pool 100 2 3 1000

-- A swap that crosses ticks moves the price of a Uniswap V3 pool.
moving_run :
    simulate_swap_mut toy_math 10 stored_pool 2 3 150
    ≡ some (done (record stored_pool { tick = 4; sqrt_price = 2 ^ 96 + 5 }, 75))
unfolding simulate_swap_mut mutating_loop mutating_step
moving_run = refl

modify_position-as_v3_example :
    map_done as_v3 (Agni.modify_position toy_math {E = ℕ} (2 ^ 32 - 10) 20 7 agni_pool)
    ≡ modify_position toy_math (2 ^ 32 - 10) 20 7 (as_v3 agni_pool)
modify_position-as_v3_example =
    modify_position-as_v3 toy_math agni_pool (2 ^ 32 - 10) 20 7 (omega arith) (omega arith)
      (inr (refl, omega arith), (omega arith, omega arith))
      (inr (refl, omega arith), (omega arith, omega arith)) (inr (refl, omega arith))

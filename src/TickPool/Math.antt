-- ===== src/TickPool/Math.antt =====
-- What the swaps rely on of `uniswap_v3_math`, as its documentation states it.
use arbitrage_bot_v.Base.{ℕ, ◌-◌, ◌^◌, ◌≤◌, ◌<◌, ◌≡◌, ◌⊎◌, Bool, true, false}
use arbitrage_bot_v.Base.Outcome.{done}
use arbitrage_bot_v.Base.Signed.{rank32, abs32}
use arbitrage_bot_v.Base.Word.{add256}
use arbitrage_bot_v.Base.HashMap.{HashMap}
use arbitrage_bot_v.TickPool.{TickMath}

-- The ticks are those of 1.0001 within 2^-128 and 2^128, with the ratios at both ends; the search
-- of a word looks at the tick and below, or above; a step whose input is not negative reaches its
-- target or uses up the input, and never takes more.
pub record IsTickMath {M : Type 0} (math : TickMath M) : Type 0 where
  pub least : math.min_tick ≡ 2 ^ 32 - 887_272
  pub greatest : math.max_tick ≡ 887_272
  pub least_ratio :
      (ratio : ℕ)
      → math.get_sqrt_ratio_at_tick math.min_tick ≡ done ratio
      → ratio ≡ math.min_sqrt_ratio
  pub greatest_ratio :
      (ratio : ℕ)
      → math.get_sqrt_ratio_at_tick math.max_tick ≡ done ratio
      → ratio ≡ math.max_sqrt_ratio
  pub ratios : math.min_sqrt_ratio < math.max_sqrt_ratio
  pub fits : math.max_sqrt_ratio < 2 ^ 160
  pub below :
      (tick_bitmap : HashMap ℕ) (tick spacing next : ℕ) (initialized : Bool)
      → math.next_initialized_tick_within_one_word tick_bitmap tick spacing true
        ≡ done (next, initialized)
      → (next < 2 ^ 32) × (rank32 next ≤ rank32 tick)
  pub above :
      (tick_bitmap : HashMap ℕ) (tick spacing next : ℕ) (initialized : Bool)
      → math.next_initialized_tick_within_one_word tick_bitmap tick spacing false
        ≡ done (next, initialized)
      → rank32 tick < rank32 next
  pub spends :
      (price target liquidity remaining fee price' amount_in amount_out fee_amount : ℕ)
      → remaining < 2 ^ 255
      → math.compute_swap_step price target liquidity remaining fee
        ≡ done (price', amount_in, amount_out, fee_amount)
      → (add256 amount_in fee_amount ≤ remaining)
        × ((price' ≡ target) ⊎ (add256 amount_in fee_amount ≡ remaining))

-- The place of a tick in the bitmap: a bit of a word of 256, its own for every tick.
pub record IsPlacing {M : Type 0} (math : TickMath M) : Type 0 where
  pub in_word : (compressed : ℕ) → (math.position compressed).1 < 256
  pub apart :
      (c d : ℕ)
      → c < 2 ^ 32
      → d < 2 ^ 32
      → abs32 c ≤ 887_272
      → abs32 d ≤ 887_272
      → math.position c ≡ math.position d
      → c ≡ d

-- ===== src/TickPool/Crossing.antt =====
-- The liquidity where the price crosses a tick, one way and back.
use arbitrage_bot_v.Base.{ℕ, ◌^◌, ◌<◌, ◌≡◌, ◌≢◌, ◌⊎◌, arith, Bool, true, false, not}
use arbitrage_bot_v.Base.Outcome.{failed, done, ◌>>=◌}
use arbitrage_bot_v.Base.Signed.{neg128, is_negative128}
use arbitrage_bot_v.Base.HashMap.{HashMap}
use arbitrage_bot_v.TickPool.{Info, TickMath, liquidity_underflow, crossed_liquidity, net_of}

module _ {M : Type 0} (math : TickMath M) (tick_bitmap : HashMap ℕ) (ticks : HashMap Info)
    (tick_spacing fee : ℕ) where
  -- The net liquidity that is added in this direction, as a number and its sign.
  abbrev gained : Bool → ℕ → ℕ
  gained true net = neg128 net
  gained false net = net

  -- Crossing a tick either fails with the liquidity underflow, and then the tick takes more
  -- than there is, or the price can cross it back at once and finds the liquidity that it had,
  -- as far as the liquidity has 127 bits and the net liquidity is not the least i128.
  pub crossed_liquidity-back :
      (tick liquidity : ℕ) (zero_for_one : Bool)
      → liquidity < 2 ^ 127
      → net_of (ticks tick) < 2 ^ 128
      → net_of (ticks tick) ≢ 2 ^ 127
      → ((crossed_liquidity math tick_bitmap ticks tick_spacing fee zero_for_one tick liquidity
            ≡ failed liquidity_underflow)
          × (is_negative128 (gained zero_for_one (net_of (ticks tick))) ≡ true)
          × (liquidity < neg128 (gained zero_for_one (net_of (ticks tick)))))
        ⊎ ((crossed_liquidity math tick_bitmap ticks tick_spacing fee zero_for_one tick liquidity
              >>= crossed_liquidity math tick_bitmap ticks tick_spacing fee (not zero_for_one) tick)
            ≡ done liquidity)
  unfolding crossed_liquidity
  crossed_liquidity-back tick liquidity true small word least = ground arith
  crossed_liquidity-back tick liquidity false small word least = ground arith

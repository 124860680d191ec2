-- ===== src/UniswapV3/Events.antt =====
-- `sync` on every log: the bitmap of a Uniswap V3 pool keeps marking the ticks that hold liquidity.
use arbitrage_bot_v.Base.{ℕ, ◌^◌, ◌≤◌, ◌<◌, ◌≡◌, refl, inl, inr, arith, false, Option}
use native.Mathlib.Decide.{ℕ_discrete}
use arbitrage_bot_v.Base.Outcome.{Outcome, panicked, failed, done}
use arbitrage_bot_v.Base.Signed.{neg128, is_negative128}
use arbitrage_bot_v.TickPool.{
  Info, TickMath, PoolLog, swap_event, mint_event, burn_event, undecoded, unknown_event, AmmError,
}
use arbitrage_bot_v.TickPool.Math.{IsPlacing}
use arbitrage_bot_v.UniswapV3.{UniswapV3Pool, sync}
use arbitrage_bot_v.UniswapV3.Positions.{gross, IsRange}
use arbitrage_bot_v.UniswapV3.Consistency.{IsConsistent, IsBacked, modify_position-IsConsistent}

-- What a log says of the positions it changes, as the chain has checked it.
abbrev pub IsLawful : UniswapV3Pool → PoolLog → Type 0
IsLawful p (swap_event sqrt_price liquidity tick) = Unit
IsLawful p (mint_event tick_lower tick_upper amount) =
    IsRange p.tick_spacing tick_lower tick_upper × (amount < 2 ^ 127)
IsLawful p (burn_event tick_lower tick_upper amount) =
    IsRange p.tick_spacing tick_lower tick_upper
    × (amount ≤ gross (p.ticks tick_lower))
    × (amount ≤ gross (p.ticks tick_upper))
IsLawful p undecoded = Unit
IsLawful p (unknown_event signature) = Unit

module _ {M : Type 0} (math : TickMath M) where
  abbrev pub Keeps : Outcome AmmError UniswapV3Pool → Type 0
  Keeps panicked = ⊥
  Keeps (failed e) = Unit
  Keeps (done q) = IsConsistent math q

  done-Keeps :
      (o : Outcome AmmError UniswapV3Pool) (q : UniswapV3Pool)
      → o ≡ done q
      → IsConsistent math q
      → Keeps o
  done-Keeps o q ends h = rw ends h

  burn-IsBacked :
      (amount : ℕ) (stored : Option Info) → amount ≤ gross stored → IsBacked (neg128 amount) stored
  burn-IsBacked amount stored h = elim (ℕ_discrete amount 0) [
    | yes nothing ↦ inl (rw nothing refl)
    | no something ↦ inr (omega arith)
  ]

  -- No log panics, and every one keeps the bitmap of a pool marking exactly the usable ticks
  -- with liquidity, if the ticks of a mint and a burn are two usable ones and a burn takes no
  -- more than both of them hold.
  pub sync-IsConsistent :
      (law : IsPlacing math) (p : UniswapV3Pool) (log : PoolLog)
      → IsLawful p log
      → IsConsistent math p
      → Keeps (sync math log p)
  unfolding sync
  sync-IsConsistent law p (swap_event sqrt_price liquidity tick) lawful h = record {
    marks = h.marks;
  }
  sync-IsConsistent law p (mint_event tick_lower tick_upper amount) (range, small) h =
      let mints : is_negative128 amount ≡ false = ground arith in
      let (q, ends, whole) =
        modify_position-IsConsistent math law p tick_lower tick_upper amount range (inl mints)
          (inl mints) h in
      done-Keeps _ q ends whole
  sync-IsConsistent law p (burn_event tick_lower tick_upper amount) (range, lower, upper) h =
      let (q, ends, whole) =
        modify_position-IsConsistent math law p tick_lower tick_upper (neg128 amount) range
          (burn-IsBacked amount (p.ticks tick_lower) lower)
          (burn-IsBacked amount (p.ticks tick_upper) upper) h in
      done-Keeps _ q ends whole
  sync-IsConsistent law p undecoded lawful h = tt
  sync-IsConsistent law p (unknown_event signature) lawful h = tt

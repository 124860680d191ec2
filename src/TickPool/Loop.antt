-- ===== src/TickPool/Loop.antt =====
-- The loop of a swap as a whole: it ends within the ticks that lie ahead, and where it ends.
use arbitrage_bot_v.Base.{
  ℕ, zero, suc, ◌+◌, ◌^◌, ◌≤◌, ◌<◌, ◌≡◌, refl, inl, inr, arith, Bool, true, false, Bool-cases, some,
}
use arbitrage_bot_v.Base.Outcome.{Outcome, panicked, failed, done}
use arbitrage_bot_v.Base.HashMap.{HashMap}
use arbitrage_bot_v.TickPool.{
  Info, TickMath, SwapError, CurrentState, swap_step, running, swap_loop,
}
use arbitrage_bot_v.TickPool.Math.{IsTickMath}
use arbitrage_bot_v.TickPool.Progress.{distance, swap_step-Nearer}

module _ {M : Type 0} (math : TickMath M) (tick_bitmap : HashMap ℕ) (ticks : HashMap Info)
    (tick_spacing fee : ℕ) (zero_for_one : Bool) where
  -- A loop that is done has nothing left to swap or met the limit, and took no more than it had.
  abbrev pub Ended : CurrentState → Outcome (SwapError M) CurrentState → Type 0
  Ended s panicked = Unit
  Ended s (failed e) = Unit
  Ended s (done s') =
      (running math tick_bitmap ticks tick_spacing fee zero_for_one s' ≡ false)
      × (s'.amount_specified_remaining ≤ s.amount_specified_remaining)

  abbrev Ends : ℕ → CurrentState → Type 0
  Ends fuel s =
      (o : Outcome (SwapError M) CurrentState) × (swap_loop math tick_bitmap ticks tick_spacing fee
          zero_for_one fuel s
        ≡ some o)
      × Ended s o

  Ended-weaken :
      (s s' : CurrentState) (o : Outcome (SwapError M) CurrentState)
      → s'.amount_specified_remaining ≤ s.amount_specified_remaining
      → Ended s' o
      → Ended s o
  Ended-weaken s s' panicked h e = tt
  Ended-weaken s s' (failed x) h e = tt
  Ended-weaken s s' (done t) h e = (e.0, omega arith)

  stopped-Ends :
      (fuel : ℕ) (s : CurrentState)
      → 0 < fuel
      → running math tick_bitmap ticks tick_spacing fee zero_for_one s ≡ false
      → Ends fuel s
  unfolding swap_loop
  stopped-Ends zero s h stopped = absurd (omega arith)
  stopped-Ends (suc fuel) s h stopped = (done s, rw stopped, (stopped, omega arith))

  module _ (law : IsTickMath math) where
    after_step :
        (fuel : ℕ) (s : CurrentState) (o : Outcome (SwapError M) CurrentState)
        → ((s' : CurrentState)
            → distance math tick_bitmap ticks tick_spacing fee zero_for_one s' + 2 ≤ fuel
            → s'.amount_specified_remaining < 2 ^ 255
            → Ends fuel s')
        → distance math tick_bitmap ticks tick_spacing fee zero_for_one s + 1 ≤ fuel
        → s.amount_specified_remaining < 2 ^ 255
        → swap_step math tick_bitmap ticks tick_spacing fee zero_for_one s ≡ o
        → running math tick_bitmap ticks tick_spacing fee zero_for_one s ≡ true
        → Ends (suc fuel) s
    unfolding swap_loop
    after_step fuel s panicked again enough small steps runs = (panicked, rw (runs, steps), tt)
    after_step fuel s (failed e) again enough small steps runs = (failed e, rw (runs, steps), tt)
    after_step fuel s (done s') again enough small steps runs =
        let (less, nearer) =
          swap_step-Nearer math tick_bitmap ticks tick_spacing fee zero_for_one law s s' small
            steps in
        let rest : Ends fuel s' = elim nearer [
          | inl stopped ↦ stopped-Ends fuel s' (omega arith) stopped
          | inr near ↦ again s' (omega arith) (omega arith)
        ] in
        let (o, ended, well) = rest in (o, rw (runs, steps) ended, Ended-weaken s s' o less well)

    pub swap_loop-Ends :
        (fuel : ℕ) (s : CurrentState)
        → distance math tick_bitmap ticks tick_spacing fee zero_for_one s + 2 ≤ fuel
        → s.amount_specified_remaining < 2 ^ 255
        → Ends fuel s
    swap_loop-Ends zero s enough small = absurd (omega arith)
    swap_loop-Ends (suc fuel) s enough small =
        elim (Bool-cases (running math tick_bitmap ticks tick_spacing fee zero_for_one s)) [
          | inl runs ↦
              after_step fuel s (swap_step math tick_bitmap ticks tick_spacing fee zero_for_one s)
                (swap_loop-Ends fuel) (omega arith) small refl runs
          | inr stopped ↦ stopped-Ends (suc fuel) s (omega arith) stopped
        ]

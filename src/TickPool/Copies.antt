-- ===== src/TickPool/Copies.antt =====
-- The loop of a swap stands in the source three times. A copy is the loop of TickPool if its body
-- makes the same calls and books their results alike, and if it runs as long.
use arbitrage_bot_v.Base.{
  ℕ, zero, suc, ◌≡◌, refl, inl, inr, Bool, Bool-cases, Option, none, some, if◌then◌else◌,
}
use arbitrage_bot_v.Base.Outcome.{Outcome, panicked, failed, done, ◌>>=◌, chain_alike}
use arbitrage_bot_v.Base.HashMap.{HashMap}
use arbitrage_bot_v.Base.Signed.{clamp_i32}
use arbitrage_bot_v.TickPool.{
  Info, TickMath, SwapError, map_err, CurrentState, swap_target_sqrt_ratio, moved, booked, clamped,
  swap_step, running, resume, swap_loop,
}

module _ {M : Type 0} (math : TickMath M) (tick_bitmap : HashMap ℕ) (ticks : HashMap Info)
    (tick_spacing fee : ℕ) (zero_for_one : Bool) where
  -- A body that makes the three calls and goes on with `rest`.
  abbrev pub calling :
      CurrentState
      → (ℕ × Bool → ℕ → ℕ × ℕ × ℕ × ℕ → Outcome (SwapError M) CurrentState)
      → Outcome (SwapError M) CurrentState
  calling s rest = do
    found ←
        map_err
          (math.next_initialized_tick_within_one_word tick_bitmap s.tick tick_spacing zero_for_one)
    next ← map_err (math.get_sqrt_ratio_at_tick (clamp_i32 found.0 math.min_tick math.max_tick))
    amounts ← map_err (
        math.compute_swap_step s.sqrt_price_x_96
          (swap_target_sqrt_ratio math tick_bitmap ticks tick_spacing fee zero_for_one next)
          s.liquidity s.amount_specified_remaining fee)
    rest found next amounts

  pub calling-alike :
      (s : CurrentState) (rest : ℕ × Bool → ℕ → ℕ × ℕ × ℕ × ℕ → Outcome (SwapError M) CurrentState)
      → ((found : ℕ × Bool) (next : ℕ) (amounts : ℕ × ℕ × ℕ × ℕ)
          → rest found next amounts
            ≡ moved math tick_bitmap ticks tick_spacing fee zero_for_one s.sqrt_price_x_96 next
                (clamped math tick_bitmap ticks tick_spacing fee zero_for_one found).0
                found.1
                (booked math tick_bitmap ticks tick_spacing fee zero_for_one s amounts))
      → calling s rest ≡ swap_step math tick_bitmap ticks tick_spacing fee zero_for_one s
  unfolding swap_step
  calling-alike s rest alike =
      chain_alike
        (map_err
          (math.next_initialized_tick_within_one_word tick_bitmap s.tick tick_spacing zero_for_one))
        _ _
        (λ found.
          chain_alike
            (map_err (math.get_sqrt_ratio_at_tick (clamp_i32 found.0 math.min_tick math.max_tick)))
            _ _
            (λ next.
              chain_alike
                (map_err (
                  math.compute_swap_step s.sqrt_price_x_96
                    (swap_target_sqrt_ratio math tick_bitmap ticks tick_spacing fee zero_for_one
                      next)
                    s.liquidity s.amount_specified_remaining fee))
                _ _ (λ amounts. alike found next amounts)))

  again_alike :
      (o : Outcome (SwapError M) CurrentState)
      (f g : CurrentState → Option (Outcome (SwapError M) CurrentState))
      → ((s : CurrentState) → f s ≡ g s)
      → resume o f ≡ resume o g
  again_alike panicked f g alike = refl
  again_alike (failed e) f g alike = refl
  again_alike (done s) f g alike = alike s

  pub swap_loop_alike :
      (loop : ℕ → CurrentState → Option (Outcome (SwapError M) CurrentState))
      (step : CurrentState → Outcome (SwapError M) CurrentState)
      → ((s : CurrentState)
          → step s ≡ swap_step math tick_bitmap ticks tick_spacing fee zero_for_one s)
      → ((s : CurrentState) → loop 0 s ≡ none)
      → ((fuel : ℕ) (s : CurrentState)
          → loop (suc fuel) s ≡ (
              if running math tick_bitmap ticks tick_spacing fee zero_for_one s
              then resume (step s) (loop fuel)
              else some (done s)))
      → (fuel : ℕ) (s : CurrentState)
      → loop fuel s ≡ swap_loop math tick_bitmap ticks tick_spacing fee zero_for_one fuel s
  unfolding swap_loop
  swap_loop_alike loop step steps none_left rounds zero s = none_left s
  swap_loop_alike loop step steps none_left rounds (suc fuel) s =
      elim (Bool-cases (running math tick_bitmap ticks tick_spacing fee zero_for_one s)) [
        | inl on ↦
            rw (rounds fuel s, on, steps s)
              (again_alike (swap_step math tick_bitmap ticks tick_spacing fee zero_for_one s)
                (loop fuel) (swap_loop math tick_bitmap ticks tick_spacing fee zero_for_one fuel)
                (swap_loop_alike loop step steps none_left rounds fuel))
        | inr off ↦ rw (rounds fuel s, off) refl
      ]

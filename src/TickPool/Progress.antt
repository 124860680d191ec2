-- ===== src/TickPool/Progress.antt =====
-- The loop of a swap: every step ends it or moves the tick towards its end, so fuel for the ticks
-- on the way is enough.
use arbitrage_bot_v.Base.{
  ℕ, ◌+◌, ◌-◌, ◌%◌, ◌^◌, ◌≤◌, ◌<◌, ◌≡◌, ◌≢◌, ◌⊎◌, inl, inr, arith, Bool, false, Bool-cases,
  if◌then◌else◌,
}
use native.Mathlib.Decide.{ℕ_discrete}
use arbitrage_bot_v.Base.Outcome.{Outcome, panicked, failed, done, ◌>>=◌, chain_done}
use arbitrage_bot_v.Base.Signed.{rank32, clamp_i32}
use arbitrage_bot_v.Base.HashMap.{HashMap}
use arbitrage_bot_v.TickPool.{
  Info, TickMath, map_err, CurrentState, sqrt_price_limit_x_96, swap_target_sqrt_ratio, moved,
  booked, clamped, stepped, swap_step, running,
}
use arbitrage_bot_v.TickPool.Math.{IsTickMath}

pub map_err-done {ℓ} :
    {M : Type 0} {A : Type ℓ} (o : Outcome M A) {a : A} → map_err o ≡ done a → o ≡ done a
map_err-done panicked h = cc
map_err-done (failed e) h = cc
map_err-done (done x) h = cc

module _ {M : Type 0} (math : TickMath M) (tick_bitmap : HashMap ℕ) (ticks : HashMap Info)
    (tick_spacing fee : ℕ) (zero_for_one : Bool) where
  -- The ticks from the state to the end that the swap moves to.
  abbrev pub distance : CurrentState → ℕ
  distance s =
      if zero_for_one
      then rank32 s.tick - rank32 math.min_tick
      else rank32 math.max_tick - rank32 s.tick

  -- Where a step has left the price and the tick.
  abbrev Landed : (next tick_next : ℕ) → CurrentState → Type 0
  Landed next tick_next s =
      (s.sqrt_price_x_96 ≡ next)
      × (rank32 s.tick + (if zero_for_one then 1 else 0) ≡ rank32 tick_next)

  -- What a step leaves of a state: the amounts and the price.
  abbrev Keeps : CurrentState → CurrentState → Type 0
  Keeps s s' =
      (s'.amount_specified_remaining ≡ s.amount_specified_remaining)
      × (s'.sqrt_price_x_96 ≡ s.sqrt_price_x_96)

  land :
      (next tick_next liquidity : ℕ) (s s' : CurrentState)
      → 0 < rank32 tick_next
      → s.sqrt_price_x_96 ≡ next
      → record s {
        liquidity = liquidity;
        tick = if zero_for_one then (tick_next + 2 ^ 32 - 1) % 2 ^ 32 else tick_next;
      }
        ≡ s'
      → Keeps s s' × Landed next tick_next s'
  land next tick_next liquidity s s' positive at_next h = ground arith

  moved-Landed :
      (start next tick_next : ℕ) (initialized : Bool) (s s' : CurrentState)
      → 0 < rank32 tick_next
      → s.sqrt_price_x_96 ≡ next
      → moved math tick_bitmap ticks tick_spacing fee zero_for_one start next tick_next initialized
          s
        ≡ done s'
      → Keeps s s' × Landed next tick_next s'
  unfolding moved
  moved-Landed start next tick_next initialized s s' positive at_next runs = ground arith

  moved-Keeps :
      (start next tick_next : ℕ) (initialized : Bool) (s s' : CurrentState)
      → s.sqrt_price_x_96 ≢ next
      → moved math tick_bitmap ticks tick_spacing fee zero_for_one start next tick_next initialized
          s
        ≡ done s'
      → Keeps s s'
  unfolding moved
  moved-Keeps start next tick_next initialized s s' apart runs = ground arith

  module _ (law : IsTickMath math) where
    -- The distance that is left after a step to this tick.
    abbrev left_at : ℕ → ℕ
    left_at tick_next =
        if zero_for_one
        then rank32 tick_next - 1 - rank32 math.min_tick
        else rank32 math.max_tick - rank32 tick_next

    abbrev target : ℕ → ℕ
    target = swap_target_sqrt_ratio math tick_bitmap ticks tick_spacing fee zero_for_one

    abbrev limit : ℕ
    limit = sqrt_price_limit_x_96 math tick_bitmap ticks tick_spacing fee zero_for_one

    -- A step aims at the limit, or at the ratio of a tick that is nearer to it.
    abbrev Ahead : CurrentState → ℕ → ℕ → Type 0
    Ahead s tick_next ratio =
        (0 < rank32 tick_next)
        × ((target ratio ≡ limit) ⊎ ((target ratio ≡ ratio) × (left_at tick_next < distance s)))

    clamped-Ahead :
        (s : CurrentState) (next ratio : ℕ) (initialized : Bool)
        → math.next_initialized_tick_within_one_word tick_bitmap s.tick tick_spacing zero_for_one
          ≡ done (next, initialized)
        → math.get_sqrt_ratio_at_tick (clamp_i32 next math.min_tick math.max_tick) ≡ done ratio
        → Ahead s (clamp_i32 next math.min_tick math.max_tick) ratio
    unfolding swap_target_sqrt_ratio sqrt_price_limit_x_96
    clamped-Ahead s next ratio initialized found reached =
        let least = law.least in
        let greatest = law.greatest in
        let ratios = law.ratios in
        let fits = law.fits in
        elim (Bool-cases zero_for_one) [
          | inl down ↦
              let (word, lower) = law.below tick_bitmap s.tick tick_spacing next initialized (cc) in
              let clamp = clamp_i32 next math.min_tick math.max_tick in
              elim (ℕ_discrete clamp math.min_tick) [
                | yes last ↦ let ended = law.least_ratio ratio (cc) in ground arith
                | no inside ↦ ground arith
              ]
          | inr up ↦
              let higher = law.above tick_bitmap s.tick tick_spacing next initialized (cc) in
              let clamp = clamp_i32 next math.min_tick math.max_tick in
              elim (ℕ_discrete clamp math.max_tick) [
                | yes last ↦ let ended = law.greatest_ratio ratio (cc) in ground arith
                | no inside ↦ ground arith
              ]
        ]

    -- What the theorem below says of the state after a step.
    abbrev Nearer : CurrentState → CurrentState → Type 0
    Nearer s s' =
        (s'.amount_specified_remaining ≤ s.amount_specified_remaining)
        × ((running math tick_bitmap ticks tick_spacing fee zero_for_one s' ≡ false)
            ⊎ (distance s' < distance s))

    booked-Nearer :
        (s s' : CurrentState) (tick_next ratio price amount_in amount_out fee_amount : ℕ)
        (initialized : Bool)
        → s.amount_specified_remaining < 2 ^ 255
        → Ahead s tick_next ratio
        → math.compute_swap_step s.sqrt_price_x_96
            (target ratio)
            s.liquidity
            s.amount_specified_remaining
            fee
          ≡ done (price, amount_in, amount_out, fee_amount)
        → moved math tick_bitmap ticks tick_spacing fee zero_for_one s.sqrt_price_x_96 ratio
            tick_next initialized
            (booked math tick_bitmap ticks tick_spacing fee zero_for_one s
              (price, amount_in, amount_out, fee_amount))
          ≡ done s'
        → Nearer s s'
    unfolding running
    booked-Nearer s s' tick_next ratio price amount_in amount_out fee_amount initialized small ahead
          paid moves =
        let start = s.sqrt_price_x_96 in
        let after =
          booked math tick_bitmap ticks tick_spacing fee zero_for_one s
            (price, amount_in, amount_out, fee_amount) in
        let (bounded, way) =
          law.spends start (target ratio) s.liquidity s.amount_specified_remaining fee price
            amount_in amount_out fee_amount small paid in
        elim (ℕ_discrete price ratio) [
          | yes arrived ↦
              let (kept, landed) =
                moved-Landed start ratio tick_next initialized after s' ahead.0 arrived moves in
              ground arith
          | no short ↦
              let kept = moved-Keeps start ratio tick_next initialized after s' short moves in
              ground arith
        ]

    -- A step takes no more than what remains, and ends the loop or goes nearer to its end.
    pub swap_step-Nearer :
        (s s' : CurrentState)
        → s.amount_specified_remaining < 2 ^ 255
        → swap_step math tick_bitmap ticks tick_spacing fee zero_for_one s ≡ done s'
        → Nearer s s'
    unfolding swap_step
    swap_step-Nearer s s' small runs =
        let search =
          math.next_initialized_tick_within_one_word tick_bitmap s.tick tick_spacing zero_for_one in
        let (found, located, steps) =
          chain_done (map_err search)
            (λ found.
              stepped math tick_bitmap ticks tick_spacing fee zero_for_one s
                (clamped math tick_bitmap ticks tick_spacing fee zero_for_one found))
            runs in
        let tick_next = clamp_i32 found.0 math.min_tick math.max_tick in
        let (ratio, reached, pays) =
          chain_done (map_err (math.get_sqrt_ratio_at_tick tick_next))
            (λ next. do
              amounts ← map_err (
                  math.compute_swap_step s.sqrt_price_x_96 (target next) s.liquidity
                    s.amount_specified_remaining fee)
              moved math tick_bitmap ticks tick_spacing fee zero_for_one s.sqrt_price_x_96 next
                  tick_next found.1
                  (booked math tick_bitmap ticks tick_spacing fee zero_for_one s amounts))
            steps in
        let step =
          math.compute_swap_step s.sqrt_price_x_96 (target ratio) s.liquidity
            s.amount_specified_remaining fee in
        let (amounts, paid, moves) =
          chain_done (map_err step)
            (λ amounts.
              moved math tick_bitmap ticks tick_spacing fee zero_for_one s.sqrt_price_x_96 ratio
                tick_next found.1
                (booked math tick_bitmap ticks tick_spacing fee zero_for_one s amounts))
            pays in
        booked-Nearer s s' tick_next ratio amounts.0 amounts.1 amounts.2 amounts.3 found.1 small
          (clamped-Ahead s found.0 ratio found.1 (map_err-done search located)
            (map_err-done (math.get_sqrt_ratio_at_tick tick_next) reached))
          (map_err-done step paid) moves

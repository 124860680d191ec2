-- ===== src/UniswapV3/Positions.antt =====
-- A position of a Uniswap V3 pool: what `modify_position` leaves at every tick and bit.
use arbitrage_bot_v.Base.{
  ℕ, ◌^◌, ◌<◌, ◌≡◌, ◌≢◌, refl, arith, Bool, true, false, ◌&&◌, ==_ne, ◌==◌, if◌then◌else◌, Option,
  none, some,
}
use mathlib.Core.Path.{fun_ext}
use arbitrage_bot_v.Base.Outcome.{done}
use arbitrage_bot_v.Base.Signed.{is_negative128}
use arbitrage_bot_v.Base.HashMap.{HashMap, insert, remove, unwrap_or}
use arbitrage_bot_v.TickPool.{Info, TickMath, default_info, flips, flip_at}
use arbitrage_bot_v.TickPool.Bitmap.{IsUsable, place, div_i32-place}
use arbitrage_bot_v.UniswapV3.{
  UniswapV3Pool, updated_info, update_tick, remove_tick, flip_tick, flip_if, flip_both,
  update_position,
}

-- What a change leaves of the entry of a tick, and whether it flips the tick's bit.
abbrev pub changed : ℕ → Bool → Option Info → Info
changed delta upper stored = updated_info delta upper (unwrap_or stored default_info)

abbrev pub gross : Option Info → ℕ
gross stored = (unwrap_or stored default_info).liquidity_gross

abbrev pub turned : ℕ → Bool → Option Info → Bool
turned delta upper stored =
    flips ((changed delta upper stored).liquidity_gross == 0) (gross stored == 0)

abbrev pub entry : ℕ → Bool → Option Info → Option Info
entry delta upper stored =
    if is_negative128 delta && turned delta upper stored
    then none
    else some (changed delta upper stored)

abbrev pub turn : Bool → ℕ × ℕ → HashMap ℕ → HashMap ℕ
turn flipped at m = if flipped then flip_at m at else m

-- A pool whose spacing is positive, and two of its ticks.
pub record IsRange (spacing tick_lower tick_upper : ℕ) : Type 0 where
  pub positive : 0 < spacing
  pub small : spacing < 2 ^ 31
  pub lower : IsUsable spacing tick_lower
  pub upper : IsUsable spacing tick_upper
  pub apart : tick_lower ≢ tick_upper

module _ {M : Type 0} (math : TickMath M) where
  abbrev pub bit_of : UniswapV3Pool → ℕ → ℕ × ℕ
  bit_of p tick = math.position (place p.tick_spacing tick)

  flip_if-turn :
      {E : Type 0} (flipped : Bool) (tick : ℕ) (p : UniswapV3Pool)
      → 0 < p.tick_spacing
      → p.tick_spacing < 2 ^ 31
      → IsUsable p.tick_spacing tick
      → flip_if math {E = E} flipped tick p
        ≡ done (record p { tick_bitmap = turn flipped (bit_of p tick) p.tick_bitmap })
  unfolding flip_tick
  flip_if-turn false tick p positive small usable = refl
  flip_if-turn true tick p positive small usable =
      rw (div_i32-place p.tick_spacing tick positive small usable) refl

  abbrev pruned : Bool → Bool → Bool → ℕ → ℕ → HashMap Info → HashMap Info
  pruned burns fl fu tick_lower tick_upper ticks =
      if burns
      then (let once = if fl then remove ticks tick_lower else ticks in
          if fu then remove once tick_upper else once)
      else ticks

  remove_tick-pruned :
      (burns fl fu : Bool) (tick_lower tick_upper : ℕ) (p : UniswapV3Pool)
      → (if burns then remove_tick fu tick_upper (remove_tick fl tick_lower p) else p)
        ≡ record p { ticks = pruned burns fl fu tick_lower tick_upper p.ticks }
  unfolding remove_tick
  remove_tick-pruned false fl fu tick_lower tick_upper p = refl
  remove_tick-pruned true false false tick_lower tick_upper p = refl
  remove_tick-pruned true false true tick_lower tick_upper p = refl
  remove_tick-pruned true true false tick_lower tick_upper p = refl
  remove_tick-pruned true true true tick_lower tick_upper p = refl

  flip_both-turn :
      {E : Type 0} (burns fl fu : Bool) (tick_lower tick_upper : ℕ) (p : UniswapV3Pool)
      → IsRange p.tick_spacing tick_lower tick_upper
      → flip_both math {E = E} burns fl fu tick_lower tick_upper p
        ≡ done (record p {
          ticks = pruned burns fl fu tick_lower tick_upper p.ticks;
          tick_bitmap = turn fu (bit_of p tick_upper) (turn fl (bit_of p tick_lower) p.tick_bitmap);
        })
  unfolding flip_both
  flip_both-turn burns fl fu tick_lower tick_upper p range =
      let half = record p { tick_bitmap = turn fl (bit_of p tick_lower) p.tick_bitmap } in
      let q = record p {
        tick_bitmap = turn fu (bit_of p tick_upper) (turn fl (bit_of p tick_lower) p.tick_bitmap);
      } in
      rw
        (
          flip_if-turn fl tick_lower p range.positive range.small range.lower,
          flip_if-turn fu tick_upper half range.positive range.small range.upper,
          remove_tick-pruned burns fl fu tick_lower tick_upper q,
        )
        refl

  -- The pool after a position has changed by `delta`.
  abbrev pub repositioned : UniswapV3Pool → ℕ → ℕ → ℕ → UniswapV3Pool
  repositioned p tick_lower tick_upper delta = record p {
    ticks = λ t.
        if t == tick_upper
        then entry delta true (p.ticks tick_upper)
        else if t == tick_lower
        then entry delta false (p.ticks tick_lower)
        else p.ticks t;
    tick_bitmap =
        turn (turned delta true (p.ticks tick_upper)) (bit_of p tick_upper)
          (turn (turned delta false (p.ticks tick_lower)) (bit_of p tick_lower) p.tick_bitmap);
  }

  pruned-entry :
      (burns fl fu : Bool) (tick_lower tick_upper : ℕ) (a b : Info) (ticks : HashMap Info)
      → tick_lower ≢ tick_upper
      → pruned burns fl fu tick_lower tick_upper (insert (insert ticks tick_lower a) tick_upper b)
        ≡ (λ t.
            if t == tick_upper
            then (if burns && fu then none else some b)
            else if t == tick_lower
            then (if burns && fl then none else some a)
            else ticks t)
  pruned-entry burns fl fu tick_lower tick_upper a b ticks apart = fun_ext λ t. ground arith

  pub update_position-repositioned :
      {E : Type 0} (p : UniswapV3Pool) (tick_lower tick_upper delta : ℕ)
      → IsRange p.tick_spacing tick_lower tick_upper
      → delta ≢ 0
      → update_position math {E = E} tick_lower tick_upper delta p
        ≡ done (repositioned p tick_lower tick_upper delta)
  unfolding update_position update_tick
  update_position-repositioned p tick_lower tick_upper delta range some_delta =
      let a = changed delta false (p.ticks tick_lower) in
      let b = changed delta true (p.ticks tick_upper) in
      let fl = turned delta false (p.ticks tick_lower) in
      let fu = turned delta true (p.ticks tick_upper) in
      let kept : insert p.ticks tick_lower a tick_upper ≡ p.ticks tick_upper =
        ground (arith, range.apart) in
      let q = record p { ticks = insert (insert p.ticks tick_lower a) tick_upper b } in
      rw
        (
          ==_ne delta 0 some_delta,
          kept,
          flip_both-turn (is_negative128 delta) fl fu tick_lower tick_upper q range,
          pruned-entry (is_negative128 delta) fl fu tick_lower tick_upper a b p.ticks range.apart,
        )
        refl

  pub update_position-zero :
      {E : Type 0} (p : UniswapV3Pool) (tick_lower tick_upper : ℕ)
      → update_position math {E = E} tick_lower tick_upper 0 p ≡ done p
  unfolding update_position
  update_position-zero p tick_lower tick_upper = refl

-- ===== src/UniswapV3/Consistency.antt =====
-- The bitmap of a Uniswap V3 pool marks the ticks that hold liquidity, and positions keep it so.
use arbitrage_bot_v.Base.{
  ℕ, ◌-◌, ◌<◌, ◌≡◌, ◌≢◌, refl, ap, ◌⊎◌, inl, inr, arith, Bool, true, false, ◌&&◌, ◌==◌,
  if◌then◌else◌, Option, none, some,
}
use native.Mathlib.Decide.{ℕ_discrete}
use arbitrage_bot_v.Base.Outcome.{done}
use arbitrage_bot_v.Base.Signed.{is_negative128}
use arbitrage_bot_v.Base.HashMap.{HashMap}
use arbitrage_bot_v.TickPool.{Info, TickMath, flips}
use arbitrage_bot_v.TickPool.Math.{IsPlacing}
use arbitrage_bot_v.TickPool.Bitmap.{
  IsUsable, place, place_apart, place-word, bit_at, flip_at_self, flip_at_ne,
}
use arbitrage_bot_v.UniswapV3.{UniswapV3Pool, modify_position, add_liquidity}
use arbitrage_bot_v.UniswapV3.Positions.{
  changed, gross, turned, entry, turn, IsRange, bit_of, repositioned, update_position-repositioned,
  update_position-zero,
}

abbrev pub flag : ℕ → ℕ
flag n = if n == 0 then 0 else 1

-- A change that is a burn takes from ticks that hold liquidity.
abbrev pub IsBacked : ℕ → Option Info → Type 0
IsBacked delta stored = (is_negative128 delta ≡ false) ⊎ (0 < gross stored)

module _ {M : Type 0} (math : TickMath M) where
  pub record IsConsistent (p : UniswapV3Pool) : Type 0 where
    pub marks :
        (t : ℕ)
        → IsUsable p.tick_spacing t
        → bit_at p.tick_bitmap (bit_of math p t) ≡ flag (gross (p.ticks t))

  module _ (law : IsPlacing math) where
    away :
        (spacing s t : ℕ)
        → 0 < spacing
        → IsUsable spacing s
        → IsUsable spacing t
        → t ≢ s
        → ((math.position (place spacing t)).0 ≢ (math.position (place spacing s)).0)
          ⊎ ((math.position (place spacing t)).1 ≢ (math.position (place spacing s)).1)
    away spacing s t positive hs ht apart =
        let here = math.position (place spacing s) in
        let there = math.position (place spacing t) in
        elim (ℕ_discrete there.0 here.0) [
          | no words ↦ inl words
          | yes word ↦ elim (ℕ_discrete there.1 here.1) [
            | no bits ↦ inr bits
            | yes bit ↦
                let (word_t, size_t) = place-word spacing t ht in
                let (word_s, size_s) = place-word spacing s hs in
                let same =
                  law.apart (place spacing t) (place spacing s) word_t word_s size_t size_s
                    (λ i. (word i, bit i)) in
                absurd (apart (place_apart spacing t s positive ht hs same))
          ]
        ]

    bit_at-turn :
        (spacing s t : ℕ) (flipped : Bool) (m : HashMap ℕ)
        → 0 < spacing
        → IsUsable spacing s
        → IsUsable spacing t
        → bit_at
            (turn flipped (math.position (place spacing s)) m)
            (math.position (place spacing t))
          ≡ (let bit = bit_at m (math.position (place spacing t)) in
              if (t == s) && flipped then 1 - bit else bit)
    bit_at-turn spacing s t false m positive hs ht = ground arith
    bit_at-turn spacing s t true m positive hs ht =
        let here = math.position (place spacing s) in
        let there = math.position (place spacing t) in
        elim (ℕ_discrete t s) [
          | yes same ↦
              let test : (t == s) ≡ true = ground arith in
              rw test (rw same (flip_at_self m here.0 here.1 (law.in_word (place spacing s))))
          | no apart ↦
              let test : (t == s) ≡ false = ground arith in
              rw test (
                flip_at_ne m here.0 here.1 there.0 there.1 (law.in_word (place spacing s))
                  (away spacing s t positive hs ht apart))
        ]

    entry_flag :
        (burns : Bool) (after : Info) (stored : Option Info)
        → (burns ≡ false) ⊎ (0 < gross stored)
        → flag (
            gross (
              if burns && flips (after.liquidity_gross == 0) (gross stored == 0)
              then none
              else some after))
          ≡ (if flips (after.liquidity_gross == 0) (gross stored == 0)
              then 1 - flag (gross stored)
              else flag (gross stored))
    entry_flag false after stored backed = ground arith
    entry_flag true after stored (inl mints) = absurd cc
    entry_flag true after stored (inr held) = ground arith

    gross-entry :
        (delta : ℕ) (upper : Bool) (stored : Option Info)
        → IsBacked delta stored
        → flag (gross (entry delta upper stored))
          ≡ (if turned delta upper stored then 1 - flag (gross stored) else flag (gross stored))
    gross-entry delta upper stored backed =
        entry_flag (is_negative128 delta) (changed delta upper stored) stored backed

    repositioned-IsConsistent :
        (p : UniswapV3Pool) (tick_lower tick_upper delta : ℕ)
        → IsRange p.tick_spacing tick_lower tick_upper
        → IsBacked delta (p.ticks tick_lower)
        → IsBacked delta (p.ticks tick_upper)
        → IsConsistent p
        → IsConsistent (repositioned math p tick_lower tick_upper delta)
    repositioned-IsConsistent p tick_lower tick_upper delta range backs_lower backs_upper h =
        record {
          marks = λ t usable.
              let fl = turned delta false (p.ticks tick_lower) in
              let fu = turned delta true (p.ticks tick_upper) in
              let first =
                bit_at-turn p.tick_spacing tick_lower t fl p.tick_bitmap range.positive range.lower
                  usable in
              let second =
                bit_at-turn p.tick_spacing tick_upper t fu
                  (turn fl (math.position (place p.tick_spacing tick_lower)) p.tick_bitmap)
                  range.positive range.upper usable in
              let marked = h.marks t usable in
              let at_lower = gross-entry delta false (p.ticks tick_lower) backs_lower in
              let at_upper = gross-entry delta true (p.ticks tick_upper) backs_upper in
              elim (ℕ_discrete t tick_upper) [
                | yes top ↦
                    let test : (t == tick_upper) ≡ true = ground arith in
                    let other : (t == tick_lower) ≡ false = ground (arith, range.apart) in
                    let here = ap (λ (s : ℕ). flag (gross (p.ticks s))) top in
                    rw test (ground arith)
                | no under ↦
                    let test : (t == tick_upper) ≡ false = ground arith in
                    elim (ℕ_discrete t tick_lower) [
                      | yes bottom ↦
                          let test' : (t == tick_lower) ≡ true = ground arith in
                          let here = ap (λ (s : ℕ). flag (gross (p.ticks s))) bottom in
                          rw (test, test') (ground arith)
                      | no aside ↦
                          let test' : (t == tick_lower) ≡ false = ground arith in
                          rw (test, test') (ground arith)
                    ]
              ];
        }

    with_liquidity :
        (p : UniswapV3Pool) (inside : Bool) (liquidity : ℕ)
        → IsConsistent p
        → IsConsistent (if inside then record p { liquidity = liquidity } else p)
    with_liquidity p true liquidity h = record { marks = h.marks }
    with_liquidity p false liquidity h = h

    pub modify_position-IsConsistent :
        {E : Type 0} (p : UniswapV3Pool) (tick_lower tick_upper delta : ℕ)
        → IsRange p.tick_spacing tick_lower tick_upper
        → IsBacked delta (p.ticks tick_lower)
        → IsBacked delta (p.ticks tick_upper)
        → IsConsistent p
        → (q : UniswapV3Pool) × (modify_position math {E = E} tick_lower tick_upper delta p
            ≡ done q)
          × IsConsistent q
    unfolding modify_position
    modify_position-IsConsistent {E = E} p tick_lower tick_upper delta range backs_lower backs_upper
          h =
        elim (ℕ_discrete delta 0) [
          | yes nothing ↦
              (p, rw (nothing, update_position-zero math {E = E} p tick_lower tick_upper) refl, h)
          | no some_delta ↦
              let q = repositioned math p tick_lower tick_upper delta in
              let whole =
                repositioned-IsConsistent p tick_lower tick_upper delta range backs_lower
                  backs_upper h in
              (
                add_liquidity tick_lower tick_upper delta q,
                rw
                    (update_position-repositioned math p tick_lower tick_upper delta range
                      some_delta)
                    refl,
                with_liquidity q _ _ whole,
              )
        ]

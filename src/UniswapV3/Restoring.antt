-- ===== src/UniswapV3/Restoring.antt =====
-- A burn of what a mint has put into a Uniswap V3 pool restores the pool.
use arbitrage_bot_v.Base.{
  ℕ, ◌+◌, ◌^◌, ◌<◌, ◌≡◌, ◌≢◌, refl, ap, ◌∙◌, inl, inr, arith, Bool, true, false, ◌&&◌, Bool-cases,
  ==_ne, ==_self, if◌then◌else◌,
}
use mathlib.Core.Path.{fun_ext}
use native.Mathlib.Decide.{ℕ_discrete}
use arbitrage_bot_v.Base.Outcome.{done}
use arbitrage_bot_v.Base.Signed.{lt_i32, le_i32, add128, sub128, neg128, is_negative128}
use arbitrage_bot_v.TickPool.{TickMath, mint_event, burn_event}
use arbitrage_bot_v.TickPool.Math.{IsPlacing}
use arbitrage_bot_v.TickPool.Bitmap.{place, bit_at}
use arbitrage_bot_v.UniswapV3.{UniswapV3Pool, modify_position, add_liquidity, sync}
use arbitrage_bot_v.UniswapV3.Positions.{
  turned, turn, IsRange, repositioned, update_position-repositioned,
}
use arbitrage_bot_v.UniswapV3.Undoing.{HasRoom, entry_back, turned_back, turn_back}

module _ {M : Type 0} (math : TickMath M) (law : IsPlacing math) where
  -- Around the current tick or not, a burn of the minted amount gives the liquidity back.
  abbrev around : UniswapV3Pool → ℕ → ℕ → Bool
  around p tick_lower tick_upper = le_i32 tick_lower p.tick && lt_i32 p.tick tick_upper

  added :
      (p : UniswapV3Pool) (tick_lower tick_upper amount : ℕ)
      → 0 < amount
      → amount < 2 ^ 127
      → add_liquidity tick_lower tick_upper amount p ≡ record p {
        liquidity =
            if around p tick_lower tick_upper then add128 p.liquidity amount else p.liquidity;
      }
  added p tick_lower tick_upper amount positive small =
      let test = ==_ne amount 0 (omega arith) in
      let mints : is_negative128 amount ≡ false = ground arith in
      elim (Bool-cases (around p tick_lower tick_upper)) [
        | inl inside ↦ rw (test, mints, inside) refl
        | inr outside ↦ rw (test, mints, outside) refl
      ]

  taken :
      (p : UniswapV3Pool) (tick_lower tick_upper amount : ℕ)
      → 0 < amount
      → amount < 2 ^ 127
      → add_liquidity tick_lower tick_upper (neg128 amount) p ≡ record p {
        liquidity =
            if around p tick_lower tick_upper then sub128 p.liquidity amount else p.liquidity;
      }
  taken p tick_lower tick_upper amount positive small =
      let test = ==_ne (neg128 amount) 0 (omega arith) in
      let burns : is_negative128 (neg128 amount) ≡ true = ground arith in
      let back : neg128 (neg128 amount) ≡ amount = omega arith in
      elim (Bool-cases (around p tick_lower tick_upper)) [
        | inl inside ↦ rw (test, burns, inside, back) refl
        | inr outside ↦ rw (test, burns, outside) refl
      ]

  -- A burn of the minted amount leaves the entries as they were before the mint.
  ticks_back :
      (p : UniswapV3Pool) (tick_lower tick_upper amount : ℕ)
      → 0 < amount
      → amount < 2 ^ 127
      → HasRoom amount (p.ticks tick_lower)
      → HasRoom amount (p.ticks tick_upper)
      → tick_lower ≢ tick_upper
      → (repositioned math
          (repositioned math p tick_lower tick_upper amount)
          tick_lower
          tick_upper
          (neg128 amount)).ticks
        ≡ p.ticks
  ticks_back p tick_lower tick_upper amount positive small room_lower room_upper apart =
      let lower = entry_back amount false (p.ticks tick_lower) positive small room_lower in
      let upper = entry_back amount true (p.ticks tick_upper) positive small room_upper in
      let other = ==_ne tick_lower tick_upper apart in
      fun_ext λ t. elim (ℕ_discrete t tick_upper) [
        | yes top ↦ rw (top, ==_self tick_upper) upper
        | no under ↦ elim (ℕ_discrete t tick_lower) [
          | yes bottom ↦ rw (bottom, other, ==_self tick_lower) lower
          | no aside ↦ rw (==_ne t tick_upper under, ==_ne t tick_lower aside) refl
        ]
      ]

  bits_back :
      (p : UniswapV3Pool) (tick_lower tick_upper amount : ℕ)
      → 0 < amount
      → amount < 2 ^ 127
      → HasRoom amount (p.ticks tick_lower)
      → HasRoom amount (p.ticks tick_upper)
      → tick_lower ≢ tick_upper
      → (at : ℕ × ℕ)
      → bit_at
          (repositioned math
            (repositioned math p tick_lower tick_upper amount)
            tick_lower
            tick_upper
            (neg128 amount)).tick_bitmap
          at
        ≡ bit_at p.tick_bitmap at
  bits_back p tick_lower tick_upper amount positive small room_lower room_upper apart (v, c) =
      let minted = repositioned math p tick_lower tick_upper amount in
      let lower = place p.tick_spacing tick_lower in
      let upper = place p.tick_spacing tick_upper in
      let fl = turned amount false (p.ticks tick_lower) in
      let fu = turned amount true (p.ticks tick_upper) in
      let same_upper : turned (neg128 amount) true (minted.ticks tick_upper) ≡ fu =
        rw (==_self tick_upper)
          (turned_back amount true (p.ticks tick_upper) positive small room_upper) in
      let same_lower : turned (neg128 amount) false (minted.ticks tick_lower) ≡ fl =
        rw (==_ne tick_lower tick_upper apart, ==_self tick_lower)
          (turned_back amount false (p.ticks tick_lower) positive small room_lower) in
      ap
        (λ (flipped : Bool).
          bit_at
            (turn flipped (math.position upper) (
              turn (turned (neg128 amount) false (minted.ticks tick_lower)) (math.position lower)
                minted.tick_bitmap))
            (v, c))
        same_upper
      ∙ ap
          (λ (flipped : Bool).
            bit_at
              (turn fu (math.position upper)
                (turn flipped (math.position lower) minted.tick_bitmap))
              (v, c))
          same_lower
      ∙ turn_back math law fl fu p.tick_bitmap lower upper v c

  liquidity_back :
      (inside : Bool) (liquidity amount : ℕ)
      → liquidity + amount < 2 ^ 128
      → (let added = if inside then add128 liquidity amount else liquidity in
          if inside then sub128 added amount else added)
        ≡ liquidity
  liquidity_back inside liquidity amount room = ground arith

  -- A mint between two ticks of a pool, and a burn of the same positive amount below 2^127,
  -- both succeed and restore the liquidity, every entry of the ticks and every bit of the
  -- bitmap, where the sums fit 128 bits and a stored entry is initialized and holds liquidity.
  pub sync-mint_burn :
      (p : UniswapV3Pool) (tick_lower tick_upper amount : ℕ)
      → IsRange p.tick_spacing tick_lower tick_upper
      → 0 < amount
      → amount < 2 ^ 127
      → p.liquidity + amount < 2 ^ 128
      → HasRoom amount (p.ticks tick_lower)
      → HasRoom amount (p.ticks tick_upper)
      → (q : UniswapV3Pool) × (r : UniswapV3Pool) × (sync math
            (mint_event tick_lower tick_upper amount)
            p
          ≡ done q)
        × (sync math (burn_event tick_lower tick_upper amount) q ≡ done r)
        × (r ≡ record p { tick_bitmap = r.tick_bitmap })
        × ((at : ℕ × ℕ) → bit_at r.tick_bitmap at ≡ bit_at p.tick_bitmap at)
  unfolding sync modify_position
  sync-mint_burn p tick_lower tick_upper amount range positive small room room_lower room_upper =
      let inside = around p tick_lower tick_upper in
      let minted = repositioned math p tick_lower tick_upper amount in
      let q = record minted {
        liquidity = if inside then add128 p.liquidity amount else p.liquidity;
      } in
      let burnt = repositioned math q tick_lower tick_upper (neg128 amount) in
      let r = record p { tick_bitmap = burnt.tick_bitmap } in
      let given_back = liquidity_back inside p.liquidity amount room in
      let restored =
        ticks_back p tick_lower tick_upper amount positive small room_lower room_upper
          range.apart in
      (
        q,
        r,
        rw
            (
              update_position-repositioned math p tick_lower tick_upper amount range (omega arith),
              added minted tick_lower tick_upper amount positive small,
            )
            refl,
        rw
            (
              update_position-repositioned math q tick_lower tick_upper (neg128 amount) range
                  (omega arith),
              taken burnt tick_lower tick_upper amount positive small,
            )
            (λ i. done (record r { liquidity = given_back i; ticks = restored i })),
        refl,
        bits_back p tick_lower tick_upper amount positive small room_lower room_upper range.apart,
      )

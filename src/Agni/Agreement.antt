-- ===== src/Agni/Agreement.antt =====
-- The positions of an Agni pool are those of Uniswap V3 where none of its sums saturates.
use arbitrage_bot_v.Base.{
  ℕ, ◌^◌, ◌<◌, ◌≡◌, ◌≢◌, refl, ap, subst, sym, ◌∙◌, inl, inr, true, false, Bool-cases, ◌==◌,
}
use arbitrage_bot_v.Base.Outcome.{Holds, Outcome, done, ◌>>=◌}
use arbitrage_bot_v.Base.Signed.{is_negative128}
use arbitrage_bot_v.Base.HashMap.{insert_ne}
use arbitrage_bot_v.TickPool.{TickMath}
use arbitrage_bot_v.UniswapV3.{UniswapV3Pool}
use arbitrage_bot_v.UniswapV3
use arbitrage_bot_v.Agni.{AgniPool, update_tick, add_liquidity, update_position, modify_position}
use arbitrage_bot_v.Agni.Unmoved.{as_v3}
use arbitrage_bot_v.Agni.Sums.{Fits, IsExact, update_tick-exact, add_liquidity-exact}
use arbitrage_bot_v.Agni.Flips.{map_done, map_done-chain, flip_both-Follows}

module _ {M : Type 0} (math : TickMath M) {E : Type 0} where
  update_position-exact :
      (p : AgniPool) (tick_lower tick_upper delta : ℕ)
      → delta < 2 ^ 128
      → tick_lower ≢ tick_upper
      → IsExact delta false (p.ticks tick_lower)
      → IsExact delta true (p.ticks tick_upper)
      → (map_done as_v3 (update_position math {E = E} tick_lower tick_upper delta p)
          ≡ UniswapV3.update_position math tick_lower tick_upper delta (as_v3 p))
        × Holds
            (λ q. q.liquidity ≡ p.liquidity)
            (update_position math {E = E} tick_lower tick_upper delta p)
  unfolding update_position UniswapV3.update_position update_tick
  update_position-exact p tick_lower tick_upper delta small apart lower upper =
      elim (Bool-cases (delta == 0)) [
        | inl nothing ↦ rw nothing (refl, refl)
        | inr something ↦
            let l = update_tick tick_lower delta false p in
            let u = update_tick tick_upper delta true l.0 in
            let l' = UniswapV3.update_tick tick_lower delta false (as_v3 p) in
            let burns = is_negative128 delta in
            let other = insert_ne p.ticks tick_lower tick_upper _ (λ same. apart (sym same)) in
            let (pool_l, flag_l) = update_tick-exact tick_lower delta false p small lower in
            let (pool_u, flag_u) =
              update_tick-exact tick_upper delta true l.0 small
                (subst (IsExact delta true) (sym other) upper) in
            let (flips, keeps) = flip_both-Follows math burns l.1 u.1 tick_lower tick_upper u.0 in
            rw something (
              flips
                  ∙ (λ i.
                      UniswapV3.flip_both math burns (flag_l i) (flag_u i) tick_lower tick_upper
                        (pool_u i))
                  ∙ (λ i.
                      let w = UniswapV3.update_tick tick_upper delta true (pool_l i) in
                      UniswapV3.flip_both math burns l'.1 w.1 tick_lower tick_upper w.0),
              keeps,
            )
      ]

  -- Where neither the liquidity nor the sums at the two different ticks leave their widths, a
  -- change of a position of an Agni pool is the one of Uniswap V3, panics included.
  pub modify_position-as_v3 :
      (p : AgniPool) (tick_lower tick_upper delta : ℕ)
      → delta < 2 ^ 128
      → tick_lower ≢ tick_upper
      → IsExact delta false (p.ticks tick_lower)
      → IsExact delta true (p.ticks tick_upper)
      → Fits delta p.liquidity
      → map_done as_v3 (modify_position math {E = E} tick_lower tick_upper delta p)
        ≡ UniswapV3.modify_position math tick_lower tick_upper delta (as_v3 p)
  unfolding modify_position UniswapV3.modify_position
  modify_position-as_v3 p tick_lower tick_upper delta small apart lower upper fits =
      let (same, keeps) =
        update_position-exact p tick_lower tick_upper delta small apart lower upper in
      let finish : UniswapV3Pool → Outcome E UniswapV3Pool =
        λ q. done (UniswapV3.add_liquidity tick_lower tick_upper delta q) in
      map_done-chain (λ q. q.liquidity ≡ p.liquidity) as_v3 as_v3
        (update_position math tick_lower tick_upper delta p)
        (λ q. done (add_liquidity tick_lower tick_upper delta q)) finish keeps
        (λ q kept. ap done (
          add_liquidity-exact tick_lower tick_upper delta q small
            (subst (Fits delta) (sym kept) fits)))
      ∙ ap (λ (o : Outcome E UniswapV3Pool). o >>= finish) same

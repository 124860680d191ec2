-- ===== src/Agni/Flips.antt =====
-- The flips of an Agni pool do on its bitmap and ticks what those of Uniswap V3 do.
use arbitrage_bot_v.Base.{
  ℕ, ◌≡◌, refl, ap, subst, ◌∙◌, Bool, true, false, if◌then◌else◌, Option, none, some,
}
use arbitrage_bot_v.Base.Outcome.{
  Outcome, panicked, failed, done, ◌>>=◌, expect, Holds, Holds-chain,
}
use arbitrage_bot_v.Base.Signed.{div_i32}
use arbitrage_bot_v.TickPool.{TickMath, flip_at}
use arbitrage_bot_v.UniswapV3.{UniswapV3Pool}
use arbitrage_bot_v.UniswapV3
use arbitrage_bot_v.Agni.{AgniPool, remove_tick, flip_tick, flip_if, flip_both}
use arbitrage_bot_v.Agni.Unmoved.{as_v3}

abbrev pub map_done : {E A B : Type 0} → (A → B) → Outcome E A → Outcome E B
map_done f panicked = panicked
map_done f (failed e) = failed e
map_done f (done x) = done (f x)

pub map_done-chain :
    {E A B A' B' : Type 0} (P : A → Type 0) (f : A → A') (g : B → B') (o : Outcome E A)
    (h : A → Outcome E B) (k : A' → Outcome E B')
    → Holds P o
    → ((a : A) → P a → map_done g (h a) ≡ k (f a))
    → map_done g (o >>= h) ≡ (map_done f o >>= k)
map_done-chain P f g panicked h k held same = refl
map_done-chain P f g (failed e) h k held same = refl
map_done-chain P f g (done a) h k held same = same a held

abbrev cleaned : Bool → Bool → Bool → ℕ → ℕ → AgniPool → AgniPool
cleaned burns fl fu tick_lower tick_upper p =
    if burns then remove_tick fu tick_upper (remove_tick fl tick_lower p) else p

abbrev cleaned_v3 : Bool → Bool → Bool → ℕ → ℕ → UniswapV3Pool → UniswapV3Pool
cleaned_v3 burns fl fu tick_lower tick_upper p =
    if burns then UniswapV3.remove_tick fu tick_upper (UniswapV3.remove_tick fl tick_lower p) else p

module _ {M : Type 0} (math : TickMath M) {E : Type 0} where
  -- A step that keeps the liquidity and does on the pool what Uniswap V3 does.
  abbrev Follows :
      (AgniPool → Outcome E AgniPool) → (UniswapV3Pool → Outcome E UniswapV3Pool) → Type 0
  Follows step step' =
      (p : AgniPool)
      → (map_done as_v3 (step p) ≡ step' (as_v3 p))
        × Holds (λ q. q.liquidity ≡ p.liquidity) (step p)

  flip_tick-Follows :
      (tick : ℕ)
      → Follows (flip_tick math tick) (λ p. UniswapV3.flip_tick math tick p.tick_spacing p)
  unfolding flip_tick UniswapV3.flip_tick
  flip_tick-Follows tick p = placed (div_i32 tick p.tick_spacing)
    where
      placed :
          (compressed : Option ℕ)
          → (map_done as_v3 (
                expect {E = E} compressed >>= λ c.
                done (record p { tick_bitmap = flip_at p.tick_bitmap (math.position c) }))
              ≡ (expect compressed >>= λ c.
                  done
                    (record (as_v3 p) { tick_bitmap = flip_at p.tick_bitmap (math.position c) })))
            × Holds
                (λ (q : AgniPool). q.liquidity ≡ p.liquidity)
                (expect {E = E} compressed >>= λ c.
                  done (record p { tick_bitmap = flip_at p.tick_bitmap (math.position c) }))
      placed none = (refl, tt)
      placed (some c) = (refl, refl)

  flip_if-Follows :
      (flipped : Bool) (tick : ℕ)
      → Follows (flip_if math flipped tick) (UniswapV3.flip_if math flipped tick)
  flip_if-Follows false tick p = (refl, refl)
  flip_if-Follows true tick p = flip_tick-Follows tick p

  chain-Follows :
      (step next : AgniPool → Outcome E AgniPool)
      (step' next' : UniswapV3Pool → Outcome E UniswapV3Pool)
      → Follows step step'
      → Follows next next'
      → Follows (λ p. step p >>= next) (λ p. step' p >>= next')
  chain-Follows step next step' next' first second p =
      let (same, held) = first p in
      (
        map_done-chain (λ q. q.liquidity ≡ p.liquidity) as_v3 as_v3 (step p) next next' held
              (λ q _. (second q).0)
            ∙ ap (λ (o : Outcome E UniswapV3Pool). o >>= next') same,
        Holds-chain (λ q. q.liquidity ≡ p.liquidity) (λ q. q.liquidity ≡ p.liquidity) (step p) next
            held
            (λ q kept. subst (λ (l : ℕ). Holds (λ r. r.liquidity ≡ l) (next q)) kept (second q).1),
      )

  cleaned-Follows :
      (burns fl fu : Bool) (tick_lower tick_upper : ℕ)
      → Follows
          (λ p. done (cleaned burns fl fu tick_lower tick_upper p))
          (λ p. done (cleaned_v3 burns fl fu tick_lower tick_upper p))
  unfolding remove_tick UniswapV3.remove_tick
  cleaned-Follows false fl fu tick_lower tick_upper p = (refl, refl)
  cleaned-Follows true false false tick_lower tick_upper p = (refl, refl)
  cleaned-Follows true false true tick_lower tick_upper p = (refl, refl)
  cleaned-Follows true true false tick_lower tick_upper p = (refl, refl)
  cleaned-Follows true true true tick_lower tick_upper p = (refl, refl)

  pub flip_both-Follows :
      (burns fl fu : Bool) (tick_lower tick_upper : ℕ)
      → Follows
          (flip_both math burns fl fu tick_lower tick_upper)
          (UniswapV3.flip_both math burns fl fu tick_lower tick_upper)
  unfolding flip_both UniswapV3.flip_both
  flip_both-Follows burns fl fu tick_lower tick_upper =
      chain-Follows (flip_if math fl tick_lower)
        (λ p.
          flip_if math fu tick_upper p >>= λ q. done (cleaned burns fl fu tick_lower tick_upper q))
        (UniswapV3.flip_if math fl tick_lower)
        (λ p. UniswapV3.flip_if math fu tick_upper p >>= λ q.
          done (cleaned_v3 burns fl fu tick_lower tick_upper q))
        (flip_if-Follows fl tick_lower)
        (chain-Follows (flip_if math fu tick_upper)
          (λ q. done (cleaned burns fl fu tick_lower tick_upper q))
          (UniswapV3.flip_if math fu tick_upper)
          (λ q. done (cleaned_v3 burns fl fu tick_lower tick_upper q))
          (flip_if-Follows fu tick_upper) (cleaned-Follows burns fl fu tick_lower tick_upper))

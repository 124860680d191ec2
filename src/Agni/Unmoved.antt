-- ===== src/Agni/Unmoved.antt =====
-- The swap of an Agni pool against the one of Uniswap V3.
use arbitrage_bot_v.Base.{ℕ, ◌≡◌, refl, ap, inl, inr, Bool, Bool-cases, ◌==◌, Option, none, some}
use arbitrage_bot_v.Base.Outcome.{Outcome}
use arbitrage_bot_v.Base.Signed.{clamp_i32}
use arbitrage_bot_v.Base.Word.{sub256}
use arbitrage_bot_v.TickPool.{
  Info, TickMath, SwapError, CurrentState, net_of, sqrt_price_limit_x_96, swap_target_sqrt_ratio,
  crossed_liquidity, moved, swap_step, running, swap_loop, amount_out, finish,
}
use arbitrage_bot_v.TickPool.Copies.{calling-alike, swap_loop_alike}
use arbitrage_bot_v.UniswapV3.{UniswapV3Pool}
use arbitrage_bot_v.UniswapV3
use arbitrage_bot_v.Agni.{AgniPool}
use arbitrage_bot_v.Agni.Swaps.{
  liquidity_net_or_zero, agni_step, agni_loop, start, simulate_swap, simulate_swap_mut,
}

-- An Agni pool without its share of the protocol.
abbrev pub as_v3 : AgniPool → UniswapV3Pool
as_v3 p = record {
  address = p.address;
  token_a = p.token_a;
  token_b = p.token_b;
  liquidity = p.liquidity;
  sqrt_price = p.sqrt_price;
  fee = p.fee;
  tick = p.tick;
  tick_spacing = p.tick_spacing;
  tick_bitmap = p.tick_bitmap;
  ticks = p.ticks;
}

module _ {M : Type 0} (math : TickMath M) (p : AgniPool) (zero_for_one : Bool) where
  abbrev limit_of : ℕ
  limit_of = sqrt_price_limit_x_96 math p.tick_bitmap p.ticks p.tick_spacing p.fee zero_for_one

  net_alike : (o : Option Info) → liquidity_net_or_zero o ≡ net_of o
  net_alike none = refl
  net_alike (some i) = refl

  agni_step-as_v3 :
      (s : CurrentState)
      → agni_step math p zero_for_one limit_of s
        ≡ swap_step math p.tick_bitmap p.ticks p.tick_spacing p.fee zero_for_one s
  unfolding agni_step moved crossed_liquidity swap_target_sqrt_ratio
  agni_step-as_v3 s =
      calling-alike math p.tick_bitmap p.ticks p.tick_spacing p.fee zero_for_one s _
        (λ found next amounts.
          let same = net_alike (p.ticks (clamp_i32 found.0 math.min_tick math.max_tick)) in
          elim (Bool-cases (amounts.0 == next)) [
            | inl crosses ↦ rw (crosses, same) refl
            | inr within ↦ rw within (elim (Bool-cases (amounts.0 == s.sqrt_price_x_96)) [
              | inl stays ↦ rw stays refl
              | inr moves ↦ rw moves refl
            ])
          ])

  agni_loop-as_v3 :
      (fuel : ℕ) (s : CurrentState)
      → agni_loop math p zero_for_one limit_of fuel s
        ≡ swap_loop math p.tick_bitmap p.ticks p.tick_spacing p.fee zero_for_one fuel s
  unfolding agni_loop running
  agni_loop-as_v3 =
      swap_loop_alike math p.tick_bitmap p.ticks p.tick_spacing p.fee zero_for_one
        (agni_loop math p zero_for_one limit_of) (agni_step math p zero_for_one limit_of)
        agni_step-as_v3 (λ s. refl) (λ fuel s. refl)

module _ {M : Type 0} (math : TickMath M) where
  -- The swap of an Agni pool that is to change the pool pays what the Uniswap V3 swap on the
  -- same ticks pays, and fails where that fails, in whatever number of rounds is allowed, and
  -- leaves the pool exactly as it was.
  pub simulate_swap_mut-unmoved :
      (p : AgniPool) (fuel base_token quote_token amount_in : ℕ)
      → simulate_swap_mut math fuel p base_token quote_token amount_in
        ≡ finish
            (λ out. (p, out))
            (UniswapV3.simulate_swap math fuel (as_v3 p) base_token quote_token amount_in)
  unfolding simulate_swap_mut simulate_swap UniswapV3.simulate_swap amount_out sqrt_price_limit_x_96
  simulate_swap_mut-unmoved p fuel base_token quote_token amount_in =
      elim (Bool-cases (amount_in == 0)) [
        | inl nothing ↦ rw nothing refl
        | inr something ↦ rw something (
            ap
              (λ (o : Option (Outcome (SwapError M) CurrentState)).
                finish (λ out. (p, out)) (finish (λ s. sub256 0 s.amount_calculated) o))
              (agni_loop-as_v3 math p (base_token == p.token_a.address) fuel (start p amount_in)))
      ]

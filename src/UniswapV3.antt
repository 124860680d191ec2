-- ===== src/UniswapV3.antt =====
-- src/amms/uniswap_v3/mod.rs: the pool of concentrated liquidity, its positions, its events and
-- its swap. A signed number is its word in two's complement.
pub mod Mutating
pub mod Swapping
pub mod Positions
pub mod Consistency
pub mod Events
pub mod Undoing
pub mod Restoring
use arbitrage_bot_v.Base.{
  ℕ, zero, suc, ◌+◌, ◌-◌, ◌%◌, ◌^◌, Bool, true, false, ◌&&◌, not, Option, none, some, List, [], ◌∷◌,
  ltb, ◌==◌, if◌then◌else◌,
}
use arbitrage_bot_v.Base.Outcome.{Outcome, panicked, failed, done, ◌>>=◌, expect}
use arbitrage_bot_v.Base.Signed.{lt_i32, le_i32, div_i32, add128, sub128, neg128, is_negative128}
use arbitrage_bot_v.Base.HashMap.{HashMap, insert, remove, unwrap_or}
use arbitrage_bot_v.UniswapV2.{Token}
use arbitrage_bot_v.TickPool.{
  Info, TickMath, SwapError, CurrentState, swap_loop, finish, PoolLog, swap_event, mint_event,
  burn_event, undecoded, unknown_event, AmmError, decode_error, unrecognized_event_signature,
  default_info, flips, flip_at, amount_out,
}

pub record UniswapV3Pool : Type 0 where
  pub address : ℕ
  pub token_a : Token
  pub token_b : Token
  pub liquidity : ℕ
  pub sqrt_price : ℕ
  pub fee : ℕ
  pub tick : ℕ
  pub tick_spacing : ℕ
  pub tick_bitmap : HashMap ℕ
  pub ticks : HashMap Info

unfoldable pub tokens : UniswapV3Pool → List ℕ
tokens p = p.token_a.address ∷ p.token_b.address ∷ []

-- The entry of a tick after a change of the liquidity that starts or ends there.
unfoldable pub updated_info : ℕ → Bool → Info → Info
updated_info liquidity_delta upper info =
    let before = info.liquidity_gross in
    let after =
      if is_negative128 liquidity_delta
      then sub128 before (neg128 liquidity_delta)
      else add128 before liquidity_delta in
    record {
      liquidity_gross = after;
      liquidity_net =
          if upper
          then sub128 info.liquidity_net liquidity_delta
          else add128 info.liquidity_net liquidity_delta;
      initialized = if before == 0 then true else info.initialized;
    }

unfoldable pub update_tick : ℕ → ℕ → Bool → UniswapV3Pool → UniswapV3Pool × Bool
update_tick tick liquidity_delta upper p =
    let info = unwrap_or (p.ticks tick) default_info in
    let updated = updated_info liquidity_delta upper info in
    (
      record p { ticks = insert p.ticks tick updated },
      flips (updated.liquidity_gross == 0) (info.liquidity_gross == 0),
    )

unfoldable pub remove_tick : Bool → ℕ → UniswapV3Pool → UniswapV3Pool
remove_tick flipped tick p = if flipped then record p { ticks = remove p.ticks tick } else p

-- The end of `modify_position`: a change around the current tick is one of the liquidity.
abbrev pub add_liquidity : ℕ → ℕ → ℕ → UniswapV3Pool → UniswapV3Pool
add_liquidity tick_lower tick_upper liquidity_delta p =
    if not (liquidity_delta == 0) && (le_i32 tick_lower p.tick && lt_i32 p.tick tick_upper)
    then record p {
      liquidity =
          if is_negative128 liquidity_delta
          then sub128 p.liquidity (neg128 liquidity_delta)
          else add128 p.liquidity liquidity_delta;
    }
    else p

module _ {M : Type 0} (math : TickMath M) where
  -- A division by a spacing of zero panics.
  unfoldable pub flip_tick : {E : Type 0} → ℕ → ℕ → UniswapV3Pool → Outcome E UniswapV3Pool
  flip_tick tick tick_spacing p = do
    compressed ← expect (div_i32 tick tick_spacing)
    done (record p { tick_bitmap = flip_at p.tick_bitmap (math.position compressed) })

  abbrev pub flip_if : {E : Type 0} → Bool → ℕ → UniswapV3Pool → Outcome E UniswapV3Pool
  flip_if flipped tick p = if flipped then flip_tick tick p.tick_spacing p else done p

  -- The end of `update_position`: the bits of the flipped ticks, and on a burn their entries.
  unfoldable pub flip_both :
      {E : Type 0} → Bool → Bool → Bool → ℕ → ℕ → UniswapV3Pool → Outcome E UniswapV3Pool
  flip_both burns flipped_lower flipped_upper tick_lower tick_upper p = do
    half ← flip_if flipped_lower tick_lower p
    q ← flip_if flipped_upper tick_upper half
    done (
        if burns
        then remove_tick flipped_upper tick_upper (remove_tick flipped_lower tick_lower q)
        else q)

  unfoldable pub update_position :
      {E : Type 0} → ℕ → ℕ → ℕ → UniswapV3Pool → Outcome E UniswapV3Pool
  update_position tick_lower tick_upper liquidity_delta p =
      if liquidity_delta == 0
      then done p
      else (let lower = update_tick tick_lower liquidity_delta false p in
          let upper = update_tick tick_upper liquidity_delta true lower.0 in
          flip_both (is_negative128 liquidity_delta) lower.1 upper.1 tick_lower tick_upper upper.0)

  unfoldable pub modify_position :
      {E : Type 0} → ℕ → ℕ → ℕ → UniswapV3Pool → Outcome E UniswapV3Pool
  modify_position tick_lower tick_upper liquidity_delta p = do
    q ← update_position tick_lower tick_upper liquidity_delta p
    done (add_liquidity tick_lower tick_upper liquidity_delta q)

  unfoldable pub sync : PoolLog → UniswapV3Pool → Outcome AmmError UniswapV3Pool
  sync (swap_event sqrt_price liquidity tick) p =
      done (record p { sqrt_price = sqrt_price; liquidity = liquidity; tick = tick })
  sync (mint_event tick_lower tick_upper amount) p = modify_position tick_lower tick_upper amount p
  sync (burn_event tick_lower tick_upper amount) p =
      modify_position tick_lower tick_upper (neg128 amount) p
  sync undecoded p = failed decode_error
  sync (unknown_event signature) p = failed (unrecognized_event_signature signature)

  abbrev pub start : UniswapV3Pool → ℕ → CurrentState
  start p amount_in = record {
    amount_specified_remaining = amount_in;
    amount_calculated = 0;
    sqrt_price_x_96 = p.sqrt_price;
    tick = p.tick;
    liquidity = p.liquidity;
  }

  -- The loop of a swap on this pool.
  abbrev pub swap_from : UniswapV3Pool → ℕ → ℕ → ℕ → Option (Outcome (SwapError M) CurrentState)
  swap_from p fuel base_token amount_in =
      swap_loop math p.tick_bitmap p.ticks p.tick_spacing p.fee (base_token == p.token_a.address)
        fuel (start p amount_in)

  unfoldable pub simulate_swap : ℕ → UniswapV3Pool → ℕ → ℕ → ℕ → Option (Outcome (SwapError M) ℕ)
  simulate_swap fuel p base_token quote_token amount_in =
      if amount_in == 0
      then some (done 0)
      else finish amount_out (swap_from p fuel base_token amount_in)

-- ===== src/Agni.antt =====
-- src/amms/agni/mod.rs: the pool of the Agni exchange, a fork of Uniswap V3. Its sums saturate, and
-- its swap (Swaps) has a loop of its own.
pub mod Swaps
pub mod Unmoved
pub mod Sums
pub mod Flips
pub mod Agreement
use arbitrage_bot_v.Base.{
  ℕ, Bool, true, false, ◌&&◌, not, Option, none, some, List, [], ◌∷◌, ◌==◌, if◌then◌else◌, min, ◌+◌,
  ◌-◌, ◌%◌, ◌^◌,
}
use arbitrage_bot_v.Base.Outcome.{Outcome, panicked, failed, done, ◌>>=◌, expect}
use arbitrage_bot_v.Base.Signed.{
  lt_i32, le_i32, div_i32, neg128, is_negative128, saturating_add_u128, saturating_sub_u128,
  saturating_add_i128, saturating_sub_i128,
}
use arbitrage_bot_v.Base.HashMap.{HashMap, insert, remove, unwrap_or}
use arbitrage_bot_v.UniswapV2.{Token}
use arbitrage_bot_v.TickPool.{
  Info, TickMath, SwapError, PoolLog, swap_event, mint_event, burn_event, undecoded, unknown_event,
  AmmError, decode_error, unrecognized_event_signature, default_info, flips, flip_at, amount_out,
}

pub record AgniPool : Type 0 where
  pub address : ℕ
  pub token_a : Token
  pub token_b : Token
  pub liquidity : ℕ
  pub sqrt_price : ℕ
  pub fee : ℕ
  pub tick : ℕ
  pub tick_spacing : ℕ
  pub tick_bitmap : HashMap ℕ
  pub ticks : HashMap Info
  pub fee_protocol : ℕ

unfoldable pub tokens : AgniPool → List ℕ
tokens p = p.token_a.address ∷ p.token_b.address ∷ []

-- The entry of a tick after a change of the liquidity that starts or ends there.
unfoldable pub updated_info : ℕ → Bool → Info → Info
updated_info liquidity_delta upper info =
    let before = info.liquidity_gross in
    let after =
      if is_negative128 liquidity_delta
      then saturating_sub_u128 before (neg128 liquidity_delta)
      else saturating_add_u128 before liquidity_delta in
    record {
      liquidity_gross = after;
      liquidity_net =
          if upper
          then saturating_sub_i128 info.liquidity_net liquidity_delta
          else saturating_add_i128 info.liquidity_net liquidity_delta;
      initialized = if before == 0 then true else info.initialized;
    }

unfoldable pub update_tick : ℕ → ℕ → Bool → AgniPool → AgniPool × Bool
update_tick tick liquidity_delta upper p =
    let info = unwrap_or (p.ticks tick) default_info in
    let updated = updated_info liquidity_delta upper info in
    (
      record p { ticks = insert p.ticks tick updated },
      flips (updated.liquidity_gross == 0) (info.liquidity_gross == 0),
    )

unfoldable pub remove_tick : Bool → ℕ → AgniPool → AgniPool
remove_tick flipped tick p = if flipped then record p { ticks = remove p.ticks tick } else p

-- The end of `modify_position`: a change around the current tick is one of the liquidity.
unfoldable pub add_liquidity : ℕ → ℕ → ℕ → AgniPool → AgniPool
add_liquidity tick_lower tick_upper liquidity_delta p =
    if not (liquidity_delta == 0) && (le_i32 tick_lower p.tick && lt_i32 p.tick tick_upper)
    then record p {
      liquidity =
          if is_negative128 liquidity_delta
          then saturating_sub_u128 p.liquidity (neg128 liquidity_delta)
          else saturating_add_u128 p.liquidity liquidity_delta;
    }
    else p

module _ {M : Type 0} (math : TickMath M) where
  -- A division by a spacing of zero panics.
  unfoldable pub flip_tick : {E : Type 0} → ℕ → AgniPool → Outcome E AgniPool
  flip_tick tick p = do
    compressed ← expect (div_i32 tick p.tick_spacing)
    done (record p { tick_bitmap = flip_at p.tick_bitmap (math.position compressed) })

  abbrev pub flip_if : {E : Type 0} → Bool → ℕ → AgniPool → Outcome E AgniPool
  flip_if flipped tick p = if flipped then flip_tick tick p else done p

  -- The end of `update_position`: the bits of the flipped ticks, and on a burn their entries.
  unfoldable pub flip_both :
      {E : Type 0} → Bool → Bool → Bool → ℕ → ℕ → AgniPool → Outcome E AgniPool
  flip_both burns flipped_lower flipped_upper tick_lower tick_upper p = do
    half ← flip_if flipped_lower tick_lower p
    q ← flip_if flipped_upper tick_upper half
    done (
        if burns
        then remove_tick flipped_upper tick_upper (remove_tick flipped_lower tick_lower q)
        else q)

  unfoldable pub update_position : {E : Type 0} → ℕ → ℕ → ℕ → AgniPool → Outcome E AgniPool
  update_position tick_lower tick_upper liquidity_delta p =
      if liquidity_delta == 0
      then done p
      else (let lower = update_tick tick_lower liquidity_delta false p in
          let upper = update_tick tick_upper liquidity_delta true lower.0 in
          flip_both (is_negative128 liquidity_delta) lower.1 upper.1 tick_lower tick_upper upper.0)

  unfoldable pub modify_position : {E : Type 0} → ℕ → ℕ → ℕ → AgniPool → Outcome E AgniPool
  modify_position tick_lower tick_upper liquidity_delta p = do
    q ← update_position tick_lower tick_upper liquidity_delta p
    done (add_liquidity tick_lower tick_upper liquidity_delta q)

  unfoldable pub sync : PoolLog → AgniPool → Outcome AmmError AgniPool
  sync (swap_event sqrt_price liquidity tick) p =
      done (record p { sqrt_price = sqrt_price; liquidity = liquidity; tick = tick })
  sync (mint_event tick_lower tick_upper amount) p = modify_position tick_lower tick_upper amount p
  sync (burn_event tick_lower tick_upper amount) p =
      modify_position tick_lower tick_upper (neg128 amount) p
  sync undecoded p = failed decode_error
  sync (unknown_event signature) p = failed (unrecognized_event_signature signature)

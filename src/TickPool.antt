-- ===== src/TickPool.antt =====
-- What the pools of src/amms/uniswap_v3/mod.rs and src/amms/agni/mod.rs share: the data of their
-- ticks, the crate `uniswap_v3_math` as they call it, and the loop of simulate_swap across ticks as
-- it stands in uniswap_v3/mod.rs. The loop of simulate_swap_mut there, and that of agni/mod.rs, are
-- modelled apart. A signed number is its word in two's complement.
pub mod Math
pub mod Progress
pub mod Loop
pub mod Copies
pub mod Bitmap
pub mod Crossing
use arbitrage_bot_v.Base.{
  ℕ, zero, suc, ◌+◌, ◌-◌, ◌%◌, ◌^◌, Bool, true, false, ◌&&◌, not, Option, none, some, ltb, ◌==◌,
  if◌then◌else◌, bit_xor,
}
use arbitrage_bot_v.Base.Outcome.{Outcome, panicked, failed, done, ◌>>=◌}
use arbitrage_bot_v.Base.Word.{add256, sub256, shl256}
use arbitrage_bot_v.Base.Signed.{clamp_i32, add128, sub128, neg128, is_negative128}
use arbitrage_bot_v.Base.HashMap.{HashMap, insert}

pub record Info : Type 0 where
  pub liquidity_gross : ℕ
  pub liquidity_net : ℕ
  pub initialized : Bool

-- The functions and constants of `uniswap_v3_math`, whose errors are `M`.
pub record TickMath (M : Type 0) : Type 0 where
  pub min_tick : ℕ
  pub max_tick : ℕ
  pub min_sqrt_ratio : ℕ
  pub max_sqrt_ratio : ℕ
  pub next_initialized_tick_within_one_word : HashMap ℕ → ℕ → ℕ → Bool → Outcome M (ℕ × Bool)
  pub get_sqrt_ratio_at_tick : ℕ → Outcome M ℕ
  pub get_tick_at_sqrt_ratio : ℕ → Outcome M ℕ
  pub compute_swap_step : ℕ → ℕ → ℕ → ℕ → ℕ → Outcome M (ℕ × ℕ × ℕ × ℕ)
  pub position : ℕ → ℕ × ℕ

-- `UniswapV3Error`, and `AgniError` with the same two cases.
pub data SwapError (M : Type 0) : Type 0 where
  math_error : M → SwapError M
  liquidity_underflow : SwapError M

-- `.map_err(UniswapV3Error::from)`.
abbrev pub map_err {ℓ} : {M : Type 0} {A : Type ℓ} → Outcome M A → Outcome (SwapError M) A
map_err panicked = panicked
map_err (failed e) = failed (math_error e)
map_err (done x) = done x

pub record CurrentState : Type 0 where
  pub amount_specified_remaining : ℕ
  pub amount_calculated : ℕ
  pub sqrt_price_x_96 : ℕ
  pub tick : ℕ
  pub liquidity : ℕ

abbrev pub net_of : Option Info → ℕ
net_of none = 0
net_of (some info) = info.liquidity_net

-- What follows a round of a loop: nothing, where the round fails or panics.
abbrev pub resume {ℓ} :
    {M : Type 0} {S : Type ℓ}
    → Outcome (SwapError M) S
    → (S → Option (Outcome (SwapError M) S))
    → Option (Outcome (SwapError M) S)
resume panicked again = some panicked
resume (failed e) again = some (failed e)
resume (done s) again = again s

-- The loop of a swap: what it reads of the pool, and the direction.
module _ {M : Type 0} (math : TickMath M) (tick_bitmap : HashMap ℕ) (ticks : HashMap Info)
    (tick_spacing fee : ℕ) (zero_for_one : Bool) where
  unfoldable pub sqrt_price_limit_x_96 : ℕ
  sqrt_price_limit_x_96 =
      if zero_for_one then add256 math.min_sqrt_ratio 1 else sub256 math.max_sqrt_ratio 1

  unfoldable pub swap_target_sqrt_ratio : ℕ → ℕ
  swap_target_sqrt_ratio next =
      if zero_for_one
      then (if ltb next sqrt_price_limit_x_96 then sqrt_price_limit_x_96 else next)
      else (if ltb sqrt_price_limit_x_96 next then sqrt_price_limit_x_96 else next)

  -- The liquidity once the price crosses an initialized tick.
  unfoldable pub crossed_liquidity : ℕ → ℕ → Outcome (SwapError M) ℕ
  crossed_liquidity tick_next liquidity =
      let stored = net_of (ticks tick_next) in
      let liquidity_net = if zero_for_one then neg128 stored else stored in
      if is_negative128 liquidity_net
      then (if ltb liquidity (neg128 liquidity_net)
          then failed liquidity_underflow
          else done (liquidity - neg128 liquidity_net))
      else done (add128 liquidity liquidity_net)

  -- The state after the amounts of a step are booked: the tick and the liquidity it leaves.
  unfoldable pub moved :
      (start next tick_next : ℕ) → Bool → CurrentState → Outcome (SwapError M) CurrentState
  moved start next tick_next initialized s =
      if s.sqrt_price_x_96 == next
      then (do
        liquidity ←
            if initialized then crossed_liquidity tick_next s.liquidity else done s.liquidity
        done (record s {
          liquidity = liquidity;
          tick = if zero_for_one then (tick_next + 2 ^ 32 - 1) % 2 ^ 32 else tick_next;
        }))
      else if s.sqrt_price_x_96 == start
      then done s
      else (do
        tick ← map_err (math.get_tick_at_sqrt_ratio s.sqrt_price_x_96)
        done (record s { tick = tick }))

  -- The amounts of a step of the library taken into the state.
  abbrev booked : CurrentState → ℕ × ℕ × ℕ × ℕ → CurrentState
  booked s (price, amount_in, amount_out, fee_amount) = record s {
    sqrt_price_x_96 = price;
    amount_specified_remaining = sub256 s.amount_specified_remaining (add256 amount_in fee_amount);
    amount_calculated = sub256 s.amount_calculated amount_out;
  }

  -- The next tick that the step aims at, kept between the least and the greatest one.
  abbrev clamped : ℕ × Bool → ℕ × Bool
  clamped (tick_next, initialized) = (clamp_i32 tick_next math.min_tick math.max_tick, initialized)

  abbrev stepped : CurrentState → ℕ × Bool → Outcome (SwapError M) CurrentState
  stepped s (tick_next, initialized) = do
    next ← map_err (math.get_sqrt_ratio_at_tick tick_next)
    amounts ← map_err (
        math.compute_swap_step s.sqrt_price_x_96 (swap_target_sqrt_ratio next) s.liquidity
          s.amount_specified_remaining fee)
    moved s.sqrt_price_x_96 next tick_next initialized (booked s amounts)

  unfoldable pub swap_step : CurrentState → Outcome (SwapError M) CurrentState
  swap_step s = do
    found ←
        map_err
          (math.next_initialized_tick_within_one_word tick_bitmap s.tick tick_spacing zero_for_one)
    stepped s (clamped found)

  unfoldable pub running : CurrentState → Bool
  running s =
      not (s.amount_specified_remaining == 0) && not (s.sqrt_price_x_96 == sqrt_price_limit_x_96)

  -- `none`: the fuel is used up.
  unfoldable pub swap_loop : ℕ → CurrentState → Option (Outcome (SwapError M) CurrentState)
  swap_loop zero s = none
  swap_loop (suc fuel) s =
      if running s then resume (swap_step s) (swap_loop fuel) else some (done s)

-- A log as `sync` meets it: decoded by its signature, decoded in vain, or of another signature.
pub data PoolLog : Type 0 where
  swap_event : (sqrt_price liquidity tick : ℕ) → PoolLog
  mint_event : (tick_lower tick_upper amount : ℕ) → PoolLog
  burn_event : (tick_lower tick_upper amount : ℕ) → PoolLog
  undecoded : PoolLog
  unknown_event : (signature : ℕ) → PoolLog

-- The cases of `AMMError` that `sync` hands back.
pub data AmmError : Type 0 where
  decode_error : AmmError
  unrecognized_event_signature : ℕ → AmmError

abbrev pub default_info : Info
default_info = record { liquidity_gross = 0; liquidity_net = 0; initialized = false }

-- `a != b` of two tests.
abbrev pub flips : Bool → Bool → Bool
flips true b = not b
flips false b = b

-- `*word ^= mask`, on a word that may be missing.
abbrev pub toggled : Option ℕ → ℕ → ℕ
toggled none mask = mask
toggled (some word) mask = bit_xor word mask

abbrev pub flip_at : HashMap ℕ → ℕ × ℕ → HashMap ℕ
flip_at tick_bitmap (word_pos, bit_pos) =
    insert tick_bitmap word_pos (toggled (tick_bitmap word_pos) (shl256 1 bit_pos))

-- `(-amount_calculated).into_raw()`: what the swap pays out.
unfoldable pub amount_out : CurrentState → ℕ
amount_out s = sub256 0 s.amount_calculated

-- What is made of the state of a loop that is done.
abbrev pub finish :
    {M A B : Type 0} → (A → B) → Option (Outcome (SwapError M) A) → Option (Outcome (SwapError M) B)
finish f none = none
finish f (some panicked) = some panicked
finish f (some (failed e)) = some (failed e)
finish f (some (done s)) = some (done (f s))

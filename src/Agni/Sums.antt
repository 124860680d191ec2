-- ===== src/Agni/Sums.antt =====
-- The sums of an Agni pool, which saturate, against those of Uniswap V3, which wrap.
use arbitrage_bot_v.Base.{
  ℕ, ◌+◌, ◌^◌, ◌≤◌, ◌<◌, ◌≡◌, refl, ◌⊎◌, inl, inr, arith, Bool, true, false, ◌&&◌, not, Bool-cases,
  ◌==◌, if◌then◌else◌, Option,
}
use arbitrage_bot_v.Base.Signed.{
  rank128, le_i32, lt_i32, neg128, is_negative128, add128, sub128, saturating_add_u128,
  saturating_sub_u128, saturating_add_i128, saturating_sub_i128,
}
use arbitrage_bot_v.Base.HashMap.{unwrap_or}
use arbitrage_bot_v.TickPool.{Info, default_info}
use arbitrage_bot_v.UniswapV3.{UniswapV3Pool}
use arbitrage_bot_v.UniswapV3
use arbitrage_bot_v.Agni.{AgniPool, updated_info, update_tick, add_liquidity}
use arbitrage_bot_v.Agni.Unmoved.{as_v3}

-- A change whose sum with an amount is one of u128.
abbrev pub Fits : ℕ → ℕ → Type 0
Fits delta amount =
    ((is_negative128 delta ≡ true) × (neg128 delta ≤ amount) × (amount < 2 ^ 128))
    ⊎ ((is_negative128 delta ≡ false) × (amount + delta < 2 ^ 128))

-- A change whose sum with, or difference from, the net liquidity is one of i128.
abbrev pub FitsNet : ℕ → Bool → ℕ → Type 0
FitsNet delta true net =
    (rank128 delta ≤ rank128 net + 2 ^ 127) × (rank128 net < 2 ^ 127 + rank128 delta)
FitsNet delta false net =
    (2 ^ 127 ≤ rank128 net + rank128 delta) × (rank128 net + rank128 delta < 2 ^ 127 + 2 ^ 128)

abbrev pub IsExact : ℕ → Bool → Option Info → Type 0
IsExact delta upper stored =
    let info = unwrap_or stored default_info in
    Fits delta info.liquidity_gross × FitsNet delta upper info.liquidity_net

sum_exact :
    (delta amount : ℕ)
    → delta < 2 ^ 128
    → Fits delta amount
    → (if is_negative128 delta
        then saturating_sub_u128 amount (neg128 delta)
        else saturating_add_u128 amount delta)
      ≡ (if is_negative128 delta then sub128 amount (neg128 delta) else add128 amount delta)
sum_exact delta amount small (inl (burns, fits, word)) = rw burns (omega arith)
sum_exact delta amount small (inr (mints, fits)) = rw mints (omega arith)

net_exact :
    (delta : ℕ) (upper : Bool) (net : ℕ)
    → delta < 2 ^ 128
    → FitsNet delta upper net
    → (if upper then saturating_sub_i128 net delta else saturating_add_i128 net delta)
      ≡ (if upper then sub128 net delta else add128 net delta)
net_exact delta true net small fits = omega arith
net_exact delta false net small fits = omega arith

updated_info-exact :
    (delta : ℕ) (upper : Bool) (info : Info)
    → delta < 2 ^ 128
    → Fits delta info.liquidity_gross
    → FitsNet delta upper info.liquidity_net
    → updated_info delta upper info ≡ UniswapV3.updated_info delta upper info
unfolding updated_info UniswapV3.updated_info
updated_info-exact delta upper info small fits net =
    rw
      (
        sum_exact delta info.liquidity_gross small fits,
        net_exact delta upper info.liquidity_net small net,
      )
      refl

pub update_tick-exact :
    (tick delta : ℕ) (upper : Bool) (p : AgniPool)
    → delta < 2 ^ 128
    → IsExact delta upper (p.ticks tick)
    → (as_v3 (update_tick tick delta upper p).0
        ≡ (UniswapV3.update_tick tick delta upper (as_v3 p)).0)
      × ((update_tick tick delta upper p).1 ≡ (UniswapV3.update_tick tick delta upper (as_v3 p)).1)
unfolding update_tick UniswapV3.update_tick
update_tick-exact tick delta upper p small exact =
    let info = unwrap_or (p.ticks tick) default_info in
    rw (updated_info-exact delta upper info small exact.0 exact.1) (refl, refl)

pub add_liquidity-exact :
    (tick_lower tick_upper delta : ℕ) (p : AgniPool)
    → delta < 2 ^ 128
    → Fits delta p.liquidity
    → as_v3 (add_liquidity tick_lower tick_upper delta p)
      ≡ UniswapV3.add_liquidity tick_lower tick_upper delta (as_v3 p)
unfolding add_liquidity
add_liquidity-exact tick_lower tick_upper delta p small fits =
    elim (Bool-cases (not (delta == 0) && (le_i32 tick_lower p.tick && lt_i32 p.tick tick_upper))) [
      | inl inside ↦ rw (inside, sum_exact delta p.liquidity small fits) refl
      | inr outside ↦ rw outside refl
    ]

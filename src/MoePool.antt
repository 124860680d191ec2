-- ===== src/MoePool.antt =====
-- src/amms/moe/mod.rs: the pair of the Liquidity Book, its bins and its swaps.
pub mod Parameters
pub mod Bins
pub mod Swaps
use arbitrage_bot_v.Base.{
  ℕ, zero, suc, ◌+◌, ◌-◌, ◌*◌, ◌/◌, ◌%◌, ◌^◌, Bool, true, false, ◌&&◌, ◌||◌, not, List, [], ◌∷◌,
  Option, none, some, ltb, leb, ◌==◌, if◌then◌else◌, min,
}
use arbitrage_bot_v.Base.AssocMap.{AssocMap}
use arbitrage_bot_v.Base.Outcome.{Outcome, panicked, failed, done}
use arbitrage_bot_v.UniswapV2.{Token}

pub record BinReserve : Type 0 where
  pub reserve_x : ℕ
  pub reserve_y : ℕ

pub record MoeLbPair : Type 0 where
  pub address : ℕ
  pub token_x : Token
  pub token_y : Token
  pub bin_step : ℕ
  pub active_id : ℕ
  pub reserve_x : ℕ
  pub reserve_y : ℕ
  pub base_factor : ℕ
  pub filter_period : ℕ
  pub decay_period : ℕ
  pub reduction_factor : ℕ
  pub variable_fee_control : ℕ
  pub protocol_share_bps : ℕ
  pub max_volatility_acc : ℕ
  pub volatility_accumulator : ℕ
  pub volatility_reference : ℕ
  pub id_reference : ℕ
  pub time_of_last_update : ℕ
  pub bins : AssocMap BinReserve

-- The cases of `MoeError`, with those of `AMMError` that `sync` hands back.
pub data MoeError : Type 0 where
  missing_slot0 unsupported_token arithmetic insufficient_liquidity invalid_bin_id : MoeError
  decode_error : MoeError
  unrecognized_event_signature : ℕ → MoeError

abbrev pub default_bin : BinReserve
default_bin = record { reserve_x = 0; reserve_y = 0 }

abbrev pub max_reasonable_reserve : ℕ
max_reasonable_reserve = 1_000_000_000_000_000_000_000_000_000_000

abbrev pub max_iterations : ℕ
max_iterations = 512

abbrev pub bps_scale : ℕ
bps_scale = 10_000

abbrev pub fee_scale : ℕ
fee_scale = 1_000_000_000_000_000_000

unfoldable pub tokens : MoeLbPair → List ℕ
tokens p = p.token_x.address ∷ p.token_y.address ∷ []

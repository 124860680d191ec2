-- ===== src/MoePool/Parameters.antt =====
-- src/amms/moe/mod.rs: the fee parameters of a pair, and the fees by their fields.
use arbitrage_bot_v.Base.{ℕ, ◌+◌, ◌-◌, ◌*◌, ◌/◌, ◌^◌, Bool, ltb, leb, ◌==◌, if◌then◌else◌, min}
use arbitrage_bot_v.Base.Word.{u128, u32, mul256}
use arbitrage_bot_v.Base.Signed.{saturating_add_u128}
use arbitrage_bot_v.MoeMath.Error.{Result, ok, ◌>>=◌}
use arbitrage_bot_v.MoeMath.PairParameters.{
  set_static_fee_parameters, set_active_id, set_volatility_accumulator, set_volatility_reference,
  set_id_reference,
}
use arbitrage_bot_v.MoePool.{MoeLbPair, bps_scale, fee_scale}

pub record Parameters : Type 0 where
  pub base_factor : ℕ
  pub filter_period : ℕ
  pub decay_period : ℕ
  pub reduction_factor : ℕ
  pub variable_fee_control : ℕ
  pub protocol_share : ℕ
  pub max_volatility_accumulator : ℕ
  pub volatility_accumulator : ℕ
  pub volatility_reference : ℕ
  pub id_reference : ℕ
  pub time_of_last_update : ℕ
  pub active_id : ℕ
  pub bin_step : ℕ

unfoldable pub from_pair : MoeLbPair → Parameters
from_pair pair = record {
  base_factor = pair.base_factor;
  filter_period = pair.filter_period;
  decay_period = pair.decay_period;
  reduction_factor = pair.reduction_factor;
  variable_fee_control = pair.variable_fee_control;
  protocol_share = pair.protocol_share_bps;
  max_volatility_accumulator = pair.max_volatility_acc;
  volatility_accumulator = pair.volatility_accumulator;
  volatility_reference = pair.volatility_reference;
  id_reference = pair.id_reference;
  time_of_last_update = pair.time_of_last_update;
  active_id = pair.active_id;
  bin_step = pair.bin_step;
}

-- `saturating_mul` on u128.
abbrev saturating_mul_u128 : ℕ → ℕ → ℕ
saturating_mul_u128 a b = min (a * b) (2 ^ 128 - 1)

unfoldable pub calc_base_fee : ℕ → ℕ → ℕ
calc_base_fee base_factor bin_step = u128 (u128 (base_factor * bin_step) * 10_000_000_000)

unfoldable pub calc_variable_fee : ℕ → ℕ → ℕ → ℕ
calc_variable_fee volatility_acc variable_fee_control bin_step =
    let prod = u128 (volatility_acc * bin_step) in
    if variable_fee_control == 0
    then 0
    else u128 (u128 (u128 (prod * prod) * variable_fee_control) + 99) / 100

unfoldable pub total_fee : Parameters → ℕ
total_fee s =
    let base = u128 (u128 (s.base_factor * s.bin_step) * 10_000_000_000) in
    let prod = u128 (s.volatility_accumulator * s.bin_step) in
    let variable =
      if s.variable_fee_control == 0
      then 0
      else u128 (u128 (u128 (prod * prod) * s.variable_fee_control) + 99) / 100 in
    min (saturating_add_u128 base variable) fee_scale

unfoldable pub calc_total_fee : MoeLbPair → ℕ
calc_total_fee pair = total_fee (from_pair pair)

unfoldable pub calc_fee_amount : ℕ → ℕ → ℕ
calc_fee_amount amount fee =
    let denominator = fee_scale - fee in
    if denominator == 0
    then 0
    else u128 (u128 (u128 (amount * fee) + denominator) + 2 ^ 128 - 1) / denominator

unfoldable pub calc_fee_amount_from : ℕ → ℕ → ℕ
calc_fee_amount_from amount_with_fee fee =
    u128 (u128 (u128 (amount_with_fee * fee) + fee_scale) + 2 ^ 128 - 1) / fee_scale

unfoldable pub calc_protocol_fee : ℕ → ℕ → ℕ
calc_protocol_fee fee_amount protocol_share = u128 (fee_amount * protocol_share) / bps_scale

unfoldable pub protocol_fee_amount : Parameters → ℕ → ℕ
protocol_fee_amount s fee_amount = u128 (fee_amount * s.protocol_share) / bps_scale

unfoldable pub protocol_fee_amount_u256 : Parameters → ℕ → ℕ
protocol_fee_amount_u256 s fee_amount =
    if s.protocol_share == 0 then 0 else mul256 s.protocol_share fee_amount / bps_scale

unfoldable pub needs_reference_update : Parameters → ℕ → Bool
needs_reference_update s timestamp = leb s.filter_period (timestamp - s.time_of_last_update)

unfoldable pub update_references : Parameters → ℕ → Parameters
update_references s timestamp =
    let dt = timestamp - s.time_of_last_update in
    let reduction = saturating_mul_u128 s.reduction_factor s.volatility_accumulator / bps_scale in
    let moved =
      if leb s.filter_period dt
      then record s {
        id_reference = s.active_id;
        volatility_reference =
            if ltb dt s.decay_period then u32 (min reduction (2 ^ 32 - 1)) else 0;
      }
      else s in
    record moved { time_of_last_update = u32 (min timestamp (2 ^ 32 - 1)) }

unfoldable pub update_volatility_accumulator : Parameters → ℕ → Parameters
update_volatility_accumulator s new_active_id =
    let delta_id =
      if ltb s.id_reference new_active_id
      then new_active_id - s.id_reference
      else s.id_reference - new_active_id in
    let raised =
      saturating_add_u128 s.volatility_reference (saturating_mul_u128 delta_id bps_scale) in
    record s {
      volatility_accumulator = u32 (min raised s.max_volatility_accumulator);
      active_id = new_active_id;
    }

unfoldable pub write_back : Parameters → MoeLbPair → MoeLbPair
write_back s pair = record pair {
  base_factor = s.base_factor;
  filter_period = s.filter_period;
  decay_period = s.decay_period;
  reduction_factor = s.reduction_factor;
  variable_fee_control = s.variable_fee_control;
  protocol_share_bps = s.protocol_share;
  max_volatility_acc = s.max_volatility_accumulator;
  volatility_accumulator = s.volatility_accumulator;
  volatility_reference = s.volatility_reference;
  id_reference = s.id_reference;
  time_of_last_update = s.time_of_last_update;
  active_id = s.active_id;
}

-- The parameters packed anew for the math of one bin.
unfoldable pub packed_parameters : Parameters → Result ℕ
packed_parameters s = do
  static ←
      set_static_fee_parameters 0 s.base_factor s.filter_period s.decay_period s.reduction_factor
        s.variable_fee_control s.protocol_share s.max_volatility_accumulator
  accumulated ←
      set_volatility_accumulator (set_active_id static s.active_id) s.volatility_accumulator
  referenced ← set_volatility_reference accumulated s.volatility_reference
  ok (set_id_reference referenced s.id_reference)

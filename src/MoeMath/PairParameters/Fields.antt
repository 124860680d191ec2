-- ===== src/MoeMath/PairParameters/Fields.antt =====
-- The parameters of a pair as a record of numbers, and how a write to the packed word looks there.
use arbitrage_bot_v.Base.{ℕ, ◌%◌, ◌^◌, ◌<◌, ◌≡◌}
use arbitrage_bot_v.Base.Word.{word_mod}
use arbitrage_bot_v.MoeMath.Encoded.Readers.{
  decode_u12_lem, decode_u14_lem, decode_u16_lem, decode_u20_lem, decode_u24_lem, decode_u40_lem,
}
use arbitrage_bot_v.MoeMath.PairParameters.{
  get_base_factor, get_filter_period, get_decay_period, get_reduction_factor,
  get_variable_fee_control, get_protocol_share, get_max_volatility_accumulator,
  get_volatility_accumulator, get_volatility_reference, get_id_reference, get_time_of_last_update,
  get_oracle_id, get_active_id,
}
use arbitrage_bot_v.MoeMath.PairParameters.View.{Slot, width, read, write, read-write}

pub record Params : Type 0 where
  pub base_factor : ℕ
  pub filter_period : ℕ
  pub decay_period : ℕ
  pub reduction_factor : ℕ
  pub variable_fee_control : ℕ
  pub protocol_share : ℕ
  pub max_volatility_accumulator : ℕ
  pub volatility_accumulator : ℕ
  pub volatility_reference : ℕ
  pub id_reference : ℕ
  pub time_of_last_update : ℕ
  pub oracle_id : ℕ
  pub active_id : ℕ

abbrev pub view : ℕ → Params
view p = record {
  base_factor = get_base_factor p;
  filter_period = get_filter_period p;
  decay_period = get_decay_period p;
  reduction_factor = get_reduction_factor p;
  variable_fee_control = get_variable_fee_control p;
  protocol_share = get_protocol_share p;
  max_volatility_accumulator = get_max_volatility_accumulator p;
  volatility_accumulator = get_volatility_accumulator p;
  volatility_reference = get_volatility_reference p;
  id_reference = get_id_reference p;
  time_of_last_update = get_time_of_last_update p;
  oracle_id = get_oracle_id p;
  active_id = get_active_id p;
}

-- Each getter reads its own slot.
pub get_base_factor-read : (p : ℕ) → get_base_factor p ≡ read Slot.base_factor p
unfolding get_base_factor
get_base_factor-read p = decode_u16_lem p 0

pub get_filter_period-read : (p : ℕ) → get_filter_period p ≡ read Slot.filter_period p
unfolding get_filter_period
get_filter_period-read p = decode_u12_lem p 16

pub get_decay_period-read : (p : ℕ) → get_decay_period p ≡ read Slot.decay_period p
unfolding get_decay_period
get_decay_period-read p = decode_u12_lem p 28

pub get_reduction_factor-read : (p : ℕ) → get_reduction_factor p ≡ read Slot.reduction_factor p
unfolding get_reduction_factor
get_reduction_factor-read p = decode_u14_lem p 40

pub get_variable_fee_control-read :
    (p : ℕ) → get_variable_fee_control p ≡ read Slot.variable_fee_control p
unfolding get_variable_fee_control
get_variable_fee_control-read p = decode_u24_lem p 54

pub get_protocol_share-read : (p : ℕ) → get_protocol_share p ≡ read Slot.protocol_share p
unfolding get_protocol_share
get_protocol_share-read p = decode_u14_lem p 78

pub get_max_volatility_accumulator-read :
    (p : ℕ) → get_max_volatility_accumulator p ≡ read Slot.max_volatility_accumulator p
unfolding get_max_volatility_accumulator
get_max_volatility_accumulator-read p = decode_u20_lem p 92

pub get_volatility_accumulator-read :
    (p : ℕ) → get_volatility_accumulator p ≡ read Slot.volatility_accumulator p
unfolding get_volatility_accumulator
get_volatility_accumulator-read p = decode_u20_lem p 112

pub get_volatility_reference-read :
    (p : ℕ) → get_volatility_reference p ≡ read Slot.volatility_reference p
unfolding get_volatility_reference
get_volatility_reference-read p = decode_u20_lem p 132

pub get_id_reference-read : (p : ℕ) → get_id_reference p ≡ read Slot.id_reference p
unfolding get_id_reference
get_id_reference-read p = decode_u24_lem p 152

pub get_time_of_last_update-read :
    (p : ℕ) → get_time_of_last_update p ≡ read Slot.time_of_last_update p
unfolding get_time_of_last_update
get_time_of_last_update-read p = decode_u40_lem p 176

pub get_oracle_id-read : (p : ℕ) → get_oracle_id p ≡ read Slot.oracle_id p
unfolding get_oracle_id
get_oracle_id-read p = decode_u16_lem p 216

pub get_active_id-read : (p : ℕ) → get_active_id p ≡ read Slot.active_id p
unfolding get_active_id
get_active_id-read p = decode_u24_lem p 232

pub ruleset getters = (
  get_base_factor-read, get_filter_period-read, get_decay_period-read, get_reduction_factor-read,
  get_variable_fee_control-read, get_protocol_share-read, get_max_volatility_accumulator-read,
  get_volatility_accumulator-read, get_volatility_reference-read, get_id_reference-read,
  get_time_of_last_update-read, get_oracle_id-read, get_active_id-read,
)

abbrev pub put : Slot → ℕ → Params → Params
put Slot.base_factor v q = record q { base_factor = v }
put Slot.filter_period v q = record q { filter_period = v }
put Slot.decay_period v q = record q { decay_period = v }
put Slot.reduction_factor v q = record q { reduction_factor = v }
put Slot.variable_fee_control v q = record q { variable_fee_control = v }
put Slot.protocol_share v q = record q { protocol_share = v }
put Slot.max_volatility_accumulator v q = record q { max_volatility_accumulator = v }
put Slot.volatility_accumulator v q = record q { volatility_accumulator = v }
put Slot.volatility_reference v q = record q { volatility_reference = v }
put Slot.id_reference v q = record q { id_reference = v }
put Slot.time_of_last_update v q = record q { time_of_last_update = v }
put Slot.oracle_id v q = record q { oracle_id = v }
put Slot.active_id v q = record q { active_id = v }

-- A write changes the field of its slot and no other.
pub view-write :
    (s : Slot) (v p : ℕ) → p < word_mod → view (write s v p) ≡ put s (v % 2 ^ width s) (view p)
view-write Slot.base_factor v p hp = simp (getters, read-write, hp)
view-write _ v p hp = simp (getters, read-write, hp)

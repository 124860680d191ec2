-- ===== src/MoeMath/PairParameters.antt =====
-- src/amms/moe/math/pair_parameter_helper.rs: the parameters of a pair, packed in one word.
pub mod View
pub mod Fields
pub mod Steps
pub mod Static
pub mod Volatility
use arbitrage_bot_v.Base.{ℕ, ◌+◌, ◌-◌, ◌*◌, ◌/◌, ◌%◌, ◌^◌, bit_and, bit_or, min}
use arbitrage_bot_v.Base.{Bool, ◌||◌, ltb, leb, ◌==◌, if◌then◌else◌}
use arbitrage_bot_v.Base.Word.{not256, mul256, add256, u32, u64, u128}
use arbitrage_bot_v.MoeMath.Error.{
  Result, ok, err, ◌>>=◌, ◌>>◌, refuse, overflow, invalid_parameter,
}
use arbitrage_bot_v.MoeMath.Encoded.{
  set, decode_u12, decode_u14, decode_u16, decode_u20, decode_u24, decode_u40, mask_uint12,
  mask_uint14, mask_uint16, mask_uint20, mask_uint24, mask_uint40,
}

abbrev pub basis_point_max : ℕ
basis_point_max = 10_000

abbrev pub max_protocol_share : ℕ
max_protocol_share = 2_500

abbrev base_fee_scalar : ℕ
base_fee_scalar = 10_000_000_000

unfoldable pub get_base_factor : ℕ → ℕ
get_base_factor params = decode_u16 params 0

unfoldable pub get_filter_period : ℕ → ℕ
get_filter_period params = decode_u12 params 16

unfoldable pub get_decay_period : ℕ → ℕ
get_decay_period params = decode_u12 params 28

unfoldable pub get_reduction_factor : ℕ → ℕ
get_reduction_factor params = decode_u14 params 40

unfoldable pub get_variable_fee_control : ℕ → ℕ
get_variable_fee_control params = decode_u24 params 54

unfoldable pub get_protocol_share : ℕ → ℕ
get_protocol_share params = decode_u14 params 78

unfoldable pub get_max_volatility_accumulator : ℕ → ℕ
get_max_volatility_accumulator params = decode_u20 params 92

unfoldable pub get_volatility_accumulator : ℕ → ℕ
get_volatility_accumulator params = decode_u20 params 112

unfoldable pub get_volatility_reference : ℕ → ℕ
get_volatility_reference params = decode_u20 params 132

unfoldable pub get_id_reference : ℕ → ℕ
get_id_reference params = decode_u24 params 152

unfoldable pub get_time_of_last_update : ℕ → ℕ
get_time_of_last_update params = decode_u40 params 176

unfoldable pub get_oracle_id : ℕ → ℕ
get_oracle_id params = decode_u16 params 216

unfoldable pub get_active_id : ℕ → ℕ
get_active_id params = decode_u24 params 232

pub get_delta_id : ℕ → ℕ → ℕ
get_delta_id params active_id =
    let cached = get_active_id params in
    if ltb cached active_id then active_id - cached else cached - active_id

unfoldable pub get_base_fee : ℕ → ℕ → ℕ
get_base_fee params bin_step = u128 (u128 (get_base_factor params * bin_step) * base_fee_scalar)

unfoldable pub get_variable_fee : ℕ → ℕ → ℕ
get_variable_fee params bin_step =
    let variable_fee_control = get_variable_fee_control params in
    if variable_fee_control == 0
    then 0
    else (let prod = u128 (get_volatility_accumulator params * bin_step) in
        let numerator = mul256 (mul256 prod prod) variable_fee_control in
        let result = add256 numerator 99 / 100 in
        if ltb result (2 ^ 128) then result else 2 ^ 128 - 1)

unfoldable pub get_total_fee : ℕ → ℕ → Result ℕ
get_total_fee params bin_step =
    let total = get_base_fee params bin_step + get_variable_fee params bin_step in
    if ltb total (2 ^ 128) then ok total else err overflow

unfoldable pub set_active_id : ℕ → ℕ → ℕ
set_active_id params active_id = set params active_id mask_uint24 232

unfoldable pub set_id_reference : ℕ → ℕ → ℕ
set_id_reference params id_reference = set params id_reference mask_uint24 152

unfoldable pub set_oracle_id : ℕ → ℕ → ℕ
set_oracle_id params oracle_id = set params oracle_id mask_uint16 216

unfoldable pub set_volatility_reference : ℕ → ℕ → Result ℕ
set_volatility_reference params vol_ref = do
  refuse (ltb mask_uint20 vol_ref) invalid_parameter
  ok (set params vol_ref mask_uint20 132)

unfoldable pub set_volatility_accumulator : ℕ → ℕ → Result ℕ
set_volatility_accumulator params vol_acc = do
  refuse (ltb mask_uint20 vol_acc) invalid_parameter
  ok (set params vol_acc mask_uint20 112)

unfoldable pub update_id_reference : ℕ → ℕ
update_id_reference params = set params (get_active_id params) mask_uint24 152

unfoldable pub update_time_of_last_update : ℕ → ℕ → ℕ
update_time_of_last_update params timestamp = set params (min timestamp mask_uint40) mask_uint40 176

unfoldable pub update_volatility_reference : ℕ → Result ℕ
update_volatility_reference params =
    let vol_acc = get_volatility_accumulator params in
    let reduction_factor = get_reduction_factor params in
    let value = u64 (vol_acc * reduction_factor) / basis_point_max in
    set_volatility_reference params (u32 value)

unfoldable pub update_volatility_accumulator : ℕ → ℕ → Result ℕ
update_volatility_accumulator params active_id =
    let id_reference = get_id_reference params in
    let delta =
      if ltb id_reference active_id then active_id - id_reference else id_reference - active_id in
    let vol_acc = u64 (get_volatility_reference params + u64 (delta * basis_point_max)) in
    let max_vol_acc = get_max_volatility_accumulator params in
    set_volatility_accumulator params
      (u32 (if ltb max_vol_acc vol_acc then max_vol_acc else vol_acc))

-- `dt` saturates at 0 for a timestamp before the last update.
unfoldable pub update_references : ℕ → ℕ → Result ℕ
update_references params timestamp =
    let dt = timestamp - get_time_of_last_update params in
    let filter_period = get_filter_period params in
    let decay_period = get_decay_period params in
    if leb filter_period dt
    then (let moved = update_id_reference params in
        do
          updated ←
              if ltb dt decay_period
              then update_volatility_reference moved
              else set_volatility_reference moved 0
          ok (update_time_of_last_update updated timestamp))
    else ok (update_time_of_last_update params timestamp)

unfoldable pub update_volatility_parameters : ℕ → ℕ → ℕ → Result ℕ
update_volatility_parameters params active_id timestamp = do
  updated ← update_references params timestamp
  update_volatility_accumulator updated active_id

-- The seven static fields of a fresh word.
unfoldable pub static_fields : ℕ → ℕ → ℕ → ℕ → ℕ → ℕ → ℕ → ℕ
static_fields base_factor filter_period decay_period reduction_factor variable_fee_control
      protocol_share max_volatility_accumulator =
    let p1 = set 0 base_factor mask_uint16 0 in
    let p2 = set p1 filter_period mask_uint12 16 in
    let p3 = set p2 decay_period mask_uint12 28 in
    let p4 = set p3 reduction_factor mask_uint14 40 in
    let p5 = set p4 variable_fee_control mask_uint24 54 in
    let p6 = set p5 protocol_share mask_uint14 78 in
    set p6 max_volatility_accumulator mask_uint20 92

-- The mask that is cleared has 96 bits.
unfoldable pub set_static_fee_parameters : ℕ → ℕ → ℕ → ℕ → ℕ → ℕ → ℕ → ℕ → Result ℕ
set_static_fee_parameters params base_factor filter_period decay_period reduction_factor
      variable_fee_control protocol_share max_volatility_accumulator =
    let refused =
      ltb decay_period filter_period
      || (ltb mask_uint12 decay_period
          || (ltb basis_point_max reduction_factor
              || (ltb max_protocol_share protocol_share
                  || ltb mask_uint20 max_volatility_accumulator))) in
    let new_params =
      static_fields base_factor filter_period decay_period reduction_factor variable_fee_control
        protocol_share max_volatility_accumulator in
    do
      refuse refused invalid_parameter
      ok (bit_or (bit_and params (not256 0xffff_ffff_ffff_ffff_ffff_ffff)) new_params)

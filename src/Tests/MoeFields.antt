-- ===== src/Tests/MoeFields.antt =====
-- src/amms/moe/math: packed fields, parameters, samples and configurations at concrete values.
use arbitrage_bot_v.Base.{ℕ, ◌+◌, ◌*◌, ◌/◌, ◌%◌, ◌^◌, ◌≡◌, refl, arith, bit_or}
use arbitrage_bot_v.MoeMath.Error.{ok, ◌>>=◌}
use arbitrage_bot_v.MoeMath.Encoded.{set, decode_u14, decode_u16, decode_u20, decode_u24}
use arbitrage_bot_v.MoeMath.PairParameters.{
  get_active_id, get_oracle_id, get_reduction_factor, set_active_id, set_oracle_id,
  update_volatility_parameters, set_static_fee_parameters, get_max_volatility_accumulator,
  static_fields,
}
use arbitrage_bot_v.MoeMath.PairParameters.Fields.{view}
use arbitrage_bot_v.MoeMath.PairParameters.Steps.{IsPair, Becomes}
use arbitrage_bot_v.MoeMath.PairParameters.Volatility.{
  references, accumulated, update_volatility_parameters-Becomes,
}
use arbitrage_bot_v.MoeMath.PairParameters.Static.{set_static_fee_parameters-view}

-- The tests of pair_parameter_helper.rs.
getters_setters :
    (get_active_id (set_active_id 0 123456) ≡ 123456) × (get_oracle_id (set_oracle_id 0 42) ≡ 42)
unfolding get_active_id set_active_id get_oracle_id set_oracle_id set decode_u24 decode_u16
getters_setters = (refl, refl)

-- A pair at bin 8388608 with a maximal accumulator of 300000 and a reduction factor of 5000.
abbrev sample_pair : ℕ
sample_pair =
    8388608 * 2 ^ 232 + 300000 * 2 ^ 92 + 5000 * 2 ^ 40 + 600 * 2 ^ 28 + 30 * 2 ^ 16 + 20000

sample_pair-IsPair : IsPair sample_pair
unfolding get_reduction_factor decode_u14
sample_pair-IsPair = record { word = omega arith; share = omega arith }

update_volatility_parameters_example :
    Becomes
      (update_volatility_parameters sample_pair 8388610 1000)
      (accumulated (references (view sample_pair) 1000) 8388610)
update_volatility_parameters_example =
    update_volatility_parameters-Becomes sample_pair 8388610 1000 sample_pair-IsPair (omega arith)

set_static_fee_parameters_example :
    (p' : ℕ) × (set_static_fee_parameters sample_pair 20000 30 600 5000 40000 2500 16 ≡ ok p')
    × (view p' ≡ record (view sample_pair) {
      base_factor = 20000;
      filter_period = 30;
      decay_period = 600;
      reduction_factor = 5000;
      variable_fee_control = 40000 % 2 ^ 24;
      protocol_share = 2500;
      max_volatility_accumulator =
          bit_or (get_max_volatility_accumulator sample_pair / 16) (16 / 16) * 16 + 16 % 16;
    })
set_static_fee_parameters_example =
    set_static_fee_parameters-view sample_pair 20000 30 600 5000 40000 2500 16 (omega arith)
      (omega arith) (omega arith) (omega arith) (omega arith) (omega arith) (omega arith)

-- A lower maximum is not stored: 300000 lowered to 16 reads 300016.
old_maximum_stays :
    (set_static_fee_parameters sample_pair 20000 30 600 5000 40000 2500 16 >>= λ p.
    ok (get_max_volatility_accumulator p))
    ≡ ok 300016
unfolding set_static_fee_parameters static_fields set get_max_volatility_accumulator decode_u20
old_maximum_stays = refl

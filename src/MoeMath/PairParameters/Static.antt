-- ===== src/MoeMath/PairParameters/Static.antt =====
-- `set_static_fee_parameters`: which fields of the result are the new ones.
use arbitrage_bot_v.Base.{ℕ, ◌+◌, ◌-◌, ◌*◌, ◌/◌, ◌%◌, ◌^◌, ◌≤◌, ◌<◌, ◌≡◌, refl, ap, ◌∙◌, arith}
use arbitrage_bot_v.Base.{ltb, ◌||◌, false, bit_and, bit_or}
use arbitrage_bot_v.Base.Bits.{
  bit_and_parts, bit_or_parts, bit_and_ones, bit_and-zero, bit_or-zero, zero-bit_or, bit_or-lt,
}
use arbitrage_bot_v.Base.Word.{word_mod, not256}
use arbitrage_bot_v.MoeMath.Error.{ok}
use arbitrage_bot_v.MoeMath.Encoded.{set}
use arbitrage_bot_v.MoeMath.Encoded.Fields.{set_lem, decode_lem}
use arbitrage_bot_v.MoeMath.PairParameters.{
  static_fields, set_static_fee_parameters, get_base_factor, get_filter_period, get_decay_period,
  get_reduction_factor, get_variable_fee_control, get_protocol_share,
  get_max_volatility_accumulator, get_volatility_accumulator, get_volatility_reference,
  get_id_reference, get_time_of_last_update, get_oracle_id, get_active_id,
}
use arbitrage_bot_v.MoeMath.PairParameters.Fields.{
  view, get_base_factor-read, get_filter_period-read, get_decay_period-read,
  get_reduction_factor-read, get_variable_fee_control-read, get_protocol_share-read,
  get_max_volatility_accumulator-read, get_volatility_accumulator-read,
  get_volatility_reference-read, get_id_reference-read, get_time_of_last_update-read,
  get_oracle_id-read, get_active_id-read,
}

module _ (bf fp dp rf vc ps mv : ℕ) (h1 : bf < 2 ^ 16) (h2 : fp < 2 ^ 12) (h3 : dp < 2 ^ 12)
    (h4 : rf < 2 ^ 14) (h6 : ps < 2 ^ 14) (h7 : mv < 2 ^ 20) where
  static_sum :
      static_fields bf fp dp rf vc ps mv
      ≡ bf
        + fp * 2 ^ 16
        + dp * 2 ^ 28
        + rf * 2 ^ 40
        + vc % 2 ^ 24 * 2 ^ 54
        + ps * 2 ^ 78
        + mv * 2 ^ 92
  unfolding static_fields
  static_sum =
      let s1 = set 0 bf (2 ^ 16 - 1) 0 in
      let e1 : s1 ≡ bf = omega (arith, set_lem 0 16 240 0 bf refl (omega arith)) in
      let s2 = set s1 fp (2 ^ 12 - 1) 16 in
      let e2 : s2 ≡ bf + fp * 2 ^ 16 = omega (arith, set_lem 16 12 228 s1 fp refl (omega arith)) in
      let s3 = set s2 dp (2 ^ 12 - 1) 28 in
      let e3 : s3 ≡ bf + fp * 2 ^ 16 + dp * 2 ^ 28 =
        omega (arith, set_lem 28 12 216 s2 dp refl (omega arith)) in
      let s4 = set s3 rf (2 ^ 14 - 1) 40 in
      let e4 : s4 ≡ bf + fp * 2 ^ 16 + dp * 2 ^ 28 + rf * 2 ^ 40 =
        omega (arith, set_lem 40 14 202 s3 rf refl (omega arith)) in
      let s5 = set s4 vc (2 ^ 24 - 1) 54 in
      let e5 : s5 ≡ bf + fp * 2 ^ 16 + dp * 2 ^ 28 + rf * 2 ^ 40 + vc % 2 ^ 24 * 2 ^ 54 =
        omega (arith, set_lem 54 24 178 s4 vc refl (omega arith)) in
      let s6 = set s5 ps (2 ^ 14 - 1) 78 in
      let e6 : s6
          ≡ bf + fp * 2 ^ 16 + dp * 2 ^ 28 + rf * 2 ^ 40 + vc % 2 ^ 24 * 2 ^ 54 + ps * 2 ^ 78 =
        omega (arith, set_lem 78 14 164 s5 ps refl (omega arith)) in
      omega (arith, set_lem 92 20 144 s6 mv refl (omega arith))

-- The word with its low 96 bits replaced, and the next 16 joined by `|`.
cleared_low : (p : ℕ) → p < word_mod → bit_and p (not256 (2 ^ 96 - 1)) ≡ p / 2 ^ 96 * 2 ^ 96
cleared_low p hp =
    bit_and_parts 96 (p / 2 ^ 96) (p % 2 ^ 96) (2 ^ 160 - 1) 0 (omega arith) (omega arith)
      (omega arith) (omega arith)
    ∙ omega (arith, bit_and_ones 160 (p / 2 ^ 96) (omega arith), bit_and-zero (p % 2 ^ 96))

merged :
    (p n : ℕ)
    → p < word_mod
    → bit_or (bit_and p (not256 (2 ^ 96 - 1))) n
      ≡ bit_or (p / 2 ^ 96) (n / 2 ^ 96) * 2 ^ 96 + n % 2 ^ 96
merged p n hp =
    ap (λ (x : ℕ). bit_or x n) (cleared_low p hp)
    ∙ bit_or_parts 96 (p / 2 ^ 96) 0 (n / 2 ^ 96) (n % 2 ^ 96) (omega arith) (omega arith)
        (omega arith) (omega arith)
    ∙ omega (arith, zero-bit_or (n % 2 ^ 96))

-- The bits 96 to 111 of a word, and the sixteen bits of `b` joined to them.
joined :
    (p b : ℕ)
    → p < word_mod
    → b < 2 ^ 16
    → bit_or (p / 2 ^ 96) b ≡ p / 2 ^ 112 * 2 ^ 16 + bit_or (p / 2 ^ 96 % 2 ^ 16) b
joined p b hp hb =
    bit_or_parts 16 (p / 2 ^ 112) (p / 2 ^ 96 % 2 ^ 16) 0 b (omega arith) (omega arith)
      (omega arith) hb
    ∙ omega (arith, bit_or-zero (p / 2 ^ 112))

-- Accepted static parameters replace the six fields below bit 92, and leave the six above bit 112.
-- Of the maximal accumulator the low four bits are replaced; the others are those of the old and of
-- the new value together.
pub set_static_fee_parameters-view :
    (p bf fp dp rf vc ps mv : ℕ)
    → p < word_mod
    → bf < 2 ^ 16
    → fp ≤ dp
    → dp < 2 ^ 12
    → rf ≤ 10_000
    → ps ≤ 2_500
    → mv < 2 ^ 20
    → (p' : ℕ) × (set_static_fee_parameters p bf fp dp rf vc ps mv ≡ ok p')
      × (view p' ≡ record (view p) {
        base_factor = bf;
        filter_period = fp;
        decay_period = dp;
        reduction_factor = rf;
        variable_fee_control = vc % 2 ^ 24;
        protocol_share = ps;
        max_volatility_accumulator =
            bit_or (get_max_volatility_accumulator p / 16) (mv / 16) * 16 + mv % 16;
      })
unfolding set_static_fee_parameters
set_static_fee_parameters-view p bf fp dp rf vc ps mv hp h1 h2 h3 h4 h6 h7 =
    let n = static_fields bf fp dp rf vc ps mv in
    let sum = static_sum bf fp dp rf vc ps mv h1 (omega arith) h3 (omega arith) (omega arith) h7 in
    let old = p / 2 ^ 96 % 2 ^ 16 in
    let mix = bit_or old (mv / 16) in
    let mix_fits = bit_or-lt 16 old (mv / 16) (omega arith) (omega arith) in
    let p' = bit_or (bit_and p (not256 (2 ^ 96 - 1))) n in
    let top : n / 2 ^ 96 ≡ mv / 16 = omega arith in
    let whole : p' ≡ p / 2 ^ 112 * 2 ^ 112 + mix * 2 ^ 96 + n % 2 ^ 96 = omega (
      arith,
      merged p n hp,
      ap (λ (x : ℕ). bit_or (p / 2 ^ 96) x) top,
      joined p (mv / 16) hp (omega arith),
    ) in
    let allowed : (ltb dp fp
          || (ltb 0xfff dp || (ltb 10_000 rf || (ltb 2_500 ps || ltb 0xfffff mv))))
        ≡ false =
      ground arith in
    let base_factor_lem : get_base_factor p' ≡ bf =
      get_base_factor-read p' ∙ omega (arith, decode_lem p' 16 0) in
    let filter_period_lem : get_filter_period p' ≡ fp =
      get_filter_period-read p' ∙ omega (arith, decode_lem p' 12 16) in
    let decay_period_lem : get_decay_period p' ≡ dp =
      get_decay_period-read p' ∙ omega (arith, decode_lem p' 12 28) in
    let reduction_factor_lem : get_reduction_factor p' ≡ rf =
      get_reduction_factor-read p' ∙ omega (arith, decode_lem p' 14 40) in
    let variable_fee_control_lem : get_variable_fee_control p' ≡ vc % 2 ^ 24 =
      get_variable_fee_control-read p' ∙ omega (arith, decode_lem p' 24 54) in
    let protocol_share_lem : get_protocol_share p' ≡ ps =
      get_protocol_share-read p' ∙ omega (arith, decode_lem p' 14 78) in
    let old_lem : get_max_volatility_accumulator p / 16 ≡ old =
      omega (arith, get_max_volatility_accumulator-read p, decode_lem p 20 92) in
    let max_volatility_accumulator_lem : get_max_volatility_accumulator p'
        ≡ bit_or (get_max_volatility_accumulator p / 16) (mv / 16) * 16 + mv % 16 =
      get_max_volatility_accumulator-read p'
      ∙ omega (arith, decode_lem p' 20 92, ap (λ (x : ℕ). bit_or x (mv / 16)) old_lem) in
    let volatility_accumulator_lem : get_volatility_accumulator p' ≡ get_volatility_accumulator p =
      omega (
        arith,
        get_volatility_accumulator-read p',
        get_volatility_accumulator-read p,
        decode_lem p' 20 112,
        decode_lem p 20 112,
      ) in
    let volatility_reference_lem : get_volatility_reference p' ≡ get_volatility_reference p =
      omega (
        arith,
        get_volatility_reference-read p',
        get_volatility_reference-read p,
        decode_lem p' 20 132,
        decode_lem p 20 132,
      ) in
    let id_reference_lem : get_id_reference p' ≡ get_id_reference p = omega (
      arith,
      get_id_reference-read p',
      get_id_reference-read p,
      decode_lem p' 24 152,
      decode_lem p 24 152,
    ) in
    let time_of_last_update_lem : get_time_of_last_update p' ≡ get_time_of_last_update p = omega (
      arith,
      get_time_of_last_update-read p',
      get_time_of_last_update-read p,
      decode_lem p' 40 176,
      decode_lem p 40 176,
    ) in
    let oracle_id_lem : get_oracle_id p' ≡ get_oracle_id p = omega (
      arith,
      get_oracle_id-read p',
      get_oracle_id-read p,
      decode_lem p' 16 216,
      decode_lem p 16 216,
    ) in
    let active_id_lem : get_active_id p' ≡ get_active_id p = omega (
      arith,
      get_active_id-read p',
      get_active_id-read p,
      decode_lem p' 24 232,
      decode_lem p 24 232,
    ) in
    (
      p',
      rw allowed,
      λ i. record {
        base_factor = base_factor_lem i;
        filter_period = filter_period_lem i;
        decay_period = decay_period_lem i;
        reduction_factor = reduction_factor_lem i;
        variable_fee_control = variable_fee_control_lem i;
        protocol_share = protocol_share_lem i;
        max_volatility_accumulator = max_volatility_accumulator_lem i;
        volatility_accumulator = volatility_accumulator_lem i;
        volatility_reference = volatility_reference_lem i;
        id_reference = id_reference_lem i;
        time_of_last_update = time_of_last_update_lem i;
        oracle_id = oracle_id_lem i;
        active_id = active_id_lem i;
      },
    )

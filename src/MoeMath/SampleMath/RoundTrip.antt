-- ===== src/MoeMath/SampleMath/RoundTrip.antt =====
-- A sample is read back as it was encoded.
use arbitrage_bot_v.Base.{ℕ, ◌+◌, ◌-◌, ◌*◌, ◌^◌, ◌<◌, ◌≡◌, refl, arith}
use arbitrage_bot_v.MoeMath.Encoded.{set}
use arbitrage_bot_v.MoeMath.Encoded.Fields.{set_lem, decode_lem}
use arbitrage_bot_v.MoeMath.Encoded.Readers.{
  decode_u8_lem, decode_u16_lem, decode_u40_lem, decode_u64_lem,
}
use arbitrage_bot_v.MoeMath.SampleMath.{
  encode, get_oracle_length, get_cumulative_id, get_cumulative_volatility,
  get_cumulative_bin_crossed, get_sample_lifetime, get_sample_creation, get_sample_last_update,
}

module _ (l i v b t c : ℕ) (hl : l < 2 ^ 16) (hi : i < 2 ^ 64) (hv : v < 2 ^ 64) (hb : b < 2 ^ 64)
    (ht : t < 2 ^ 8) (hc : c < 2 ^ 40) where
  encode_sum :
      encode l i v b t c ≡ l + i * 2 ^ 16 + v * 2 ^ 80 + b * 2 ^ 144 + t * 2 ^ 208 + c * 2 ^ 216
  unfolding encode
  encode_sum =
      let s1 = set 0 l (2 ^ 16 - 1) 0 in
      let e1 : s1 ≡ l = omega (arith, set_lem 0 16 240 0 l refl (omega arith)) in
      let s2 = set s1 i (2 ^ 64 - 1) 16 in
      let e2 : s2 ≡ l + i * 2 ^ 16 = omega (arith, set_lem 16 64 176 s1 i refl (omega arith)) in
      let s3 = set s2 v (2 ^ 64 - 1) 80 in
      let e3 : s3 ≡ l + i * 2 ^ 16 + v * 2 ^ 80 =
        omega (arith, set_lem 80 64 112 s2 v refl (omega arith)) in
      let s4 = set s3 b (2 ^ 64 - 1) 144 in
      let e4 : s4 ≡ l + i * 2 ^ 16 + v * 2 ^ 80 + b * 2 ^ 144 =
        omega (arith, set_lem 144 64 48 s3 b refl (omega arith)) in
      let s5 = set s4 t (2 ^ 8 - 1) 208 in
      let e5 : s5 ≡ l + i * 2 ^ 16 + v * 2 ^ 80 + b * 2 ^ 144 + t * 2 ^ 208 =
        omega (arith, set_lem 208 8 40 s4 t refl (omega arith)) in
      omega (arith, set_lem 216 40 0 s5 c refl (omega arith))

  -- Every field of an encoded sample is the one that was given, and the last update is the creation
  -- and the lifetime together.
  pub getters-encode :
      (get_oracle_length (encode l i v b t c) ≡ l)
      × (get_cumulative_id (encode l i v b t c) ≡ i)
      × (get_cumulative_volatility (encode l i v b t c) ≡ v)
      × (get_cumulative_bin_crossed (encode l i v b t c) ≡ b)
      × (get_sample_lifetime (encode l i v b t c) ≡ t)
      × (get_sample_creation (encode l i v b t c) ≡ c)
      × (get_sample_last_update (encode l i v b t c) ≡ c + t)
  unfolding get_oracle_length get_cumulative_id get_cumulative_volatility get_cumulative_bin_crossed
      get_sample_lifetime get_sample_creation get_sample_last_update
  getters-encode =
      let s = encode l i v b t c in
      let life : get_sample_lifetime s ≡ t =
        omega (arith, encode_sum, decode_u8_lem s 208, decode_lem s 8 208) in
      let made : get_sample_creation s ≡ c =
        omega (arith, encode_sum, decode_u40_lem s 216, decode_lem s 40 216) in
      (
        omega (arith, encode_sum, decode_u16_lem s 0, decode_lem s 16 0),
        omega (arith, encode_sum, decode_u64_lem s 16, decode_lem s 64 16),
        omega (arith, encode_sum, decode_u64_lem s 80, decode_lem s 64 80),
        omega (arith, encode_sum, decode_u64_lem s 144, decode_lem s 64 144),
        life,
        made,
        omega arith,
      )

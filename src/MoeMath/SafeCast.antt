-- ===== src/MoeMath/SafeCast.antt =====
-- src/amms/moe/math/safe_cast.rs: narrowing a word, or an error that names the width.
pub mod Laws
use arbitrage_bot_v.Base.{ℕ, ◌*◌, ◌/◌, ◌%◌, ◌^◌, ltb}
use arbitrage_bot_v.Base.Word.{limb, u8, u16, u32}
use arbitrage_bot_v.MoeMath.Error.{Result, ok, ◌>>=◌, ◌>>◌, refuse, value_exceeds_bits}

unfoldable pub to_u8 : ℕ → Result ℕ
to_u8 value = do refuse (ltb 0xff value) (value_exceeds_bits 8); ok (u8 (limb 0 value))

unfoldable pub to_u16 : ℕ → Result ℕ
to_u16 value = do refuse (ltb 0xffff value) (value_exceeds_bits 16); ok (u16 (limb 0 value))

unfoldable pub to_u24 : ℕ → Result ℕ
to_u24 value = do refuse (ltb 0xff_ffff value) (value_exceeds_bits 24); ok (u32 (limb 0 value))

unfoldable pub to_u32 : ℕ → Result ℕ
to_u32 value = do refuse (ltb 0xffff_ffff value) (value_exceeds_bits 32); ok (u32 (limb 0 value))

unfoldable pub to_u40 : ℕ → Result ℕ
to_u40 value = do refuse (ltb 0xff_ffff_ffff value) (value_exceeds_bits 40); ok (limb 0 value)

unfoldable pub to_u64 : ℕ → Result ℕ
to_u64 value = do
  refuse (ltb 0xffff_ffff_ffff_ffff value) (value_exceeds_bits 64)
  ok (limb 0 value)

-- The bound has 72 bits.
unfoldable pub to_u88 : ℕ → Result ℕ
to_u88 value = do
  refuse (ltb 0xff_ffff_ffff_ffff_ffff value) (value_exceeds_bits 88)
  ok (limb 0 value)

unfoldable pub to_u128 : ℕ → Result ℕ
to_u128 value = do
  refuse (ltb 0xffff_ffff_ffff_ffff_ffff_ffff_ffff_ffff value) (value_exceeds_bits 128)
  ok (limb 0 value)

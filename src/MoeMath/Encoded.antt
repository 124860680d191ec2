-- ===== src/MoeMath/Encoded.antt =====
-- src/amms/moe/math/encoded.rs: bit fields of a 256-bit word, set and read under a mask.
pub mod Fields
pub mod Readers
use arbitrage_bot_v.Base.{ℕ, ◌*◌, ◌^◌, ◌==◌, Bool, not, bit_and, bit_or}
use arbitrage_bot_v.Base.Word.{shl256, shr, not256, limb, u8, u16, u32, u128}

abbrev pub mask_uint1 : ℕ
mask_uint1 = 0x1

abbrev pub mask_uint8 : ℕ
mask_uint8 = 0xff

abbrev pub mask_uint12 : ℕ
mask_uint12 = 0xfff

abbrev pub mask_uint14 : ℕ
mask_uint14 = 0x3fff

abbrev pub mask_uint16 : ℕ
mask_uint16 = 0xffff

abbrev pub mask_uint20 : ℕ
mask_uint20 = 0xfffff

abbrev pub mask_uint24 : ℕ
mask_uint24 = 0xffffff

abbrev pub mask_uint40 : ℕ
mask_uint40 = 0xffffffffff

abbrev pub mask_uint64 : ℕ
mask_uint64 = 0xffffffffffffffff

abbrev pub mask_uint128 : ℕ
mask_uint128 = 0xffffffffffffffffffffffffffffffff

unfoldable pub set : ℕ → ℕ → ℕ → ℕ → ℕ
set encoded value mask offset =
    let cleared = bit_and encoded (not256 (shl256 mask offset)) in
    bit_or cleared (shl256 (bit_and value mask) offset)

unfoldable pub decode : ℕ → ℕ → ℕ → ℕ
decode encoded mask offset = bit_and (shr encoded offset) mask

unfoldable pub decode_bool : ℕ → ℕ → Bool
unfolding decode
decode_bool encoded offset = not (decode encoded mask_uint1 offset == 0)

unfoldable pub decode_u8 : ℕ → ℕ → ℕ
unfolding decode
decode_u8 encoded offset = u8 (limb 0 (decode encoded mask_uint8 offset))

unfoldable pub decode_u12 : ℕ → ℕ → ℕ
unfolding decode
decode_u12 encoded offset = u16 (bit_and (limb 0 (decode encoded mask_uint12 offset)) 0xfff)

unfoldable pub decode_u14 : ℕ → ℕ → ℕ
unfolding decode
decode_u14 encoded offset = u16 (bit_and (limb 0 (decode encoded mask_uint14 offset)) 0x3fff)

unfoldable pub decode_u16 : ℕ → ℕ → ℕ
unfolding decode
decode_u16 encoded offset = u16 (limb 0 (decode encoded mask_uint16 offset))

unfoldable pub decode_u20 : ℕ → ℕ → ℕ
unfolding decode
decode_u20 encoded offset = u32 (bit_and (limb 0 (decode encoded mask_uint20 offset)) 0xfffff)

unfoldable pub decode_u24 : ℕ → ℕ → ℕ
unfolding decode
decode_u24 encoded offset = u32 (bit_and (limb 0 (decode encoded mask_uint24 offset)) 0xffffff)

unfoldable pub decode_u40 : ℕ → ℕ → ℕ
unfolding decode
decode_u40 encoded offset = bit_and (limb 0 (decode encoded mask_uint40 offset)) 0xffffffffff

unfoldable pub decode_u64 : ℕ → ℕ → ℕ
unfolding decode
decode_u64 encoded offset = limb 0 (decode encoded mask_uint64 offset)

-- Two limbs are joined: `(limbs[0] as u128) | ((limbs[1] as u128) << 64)`.
unfoldable pub decode_u128 : ℕ → ℕ → ℕ
unfolding decode
decode_u128 encoded offset =
    let result = decode encoded mask_uint128 offset in
    bit_or (limb 0 result) (u128 (limb 1 result * 2 ^ 64))

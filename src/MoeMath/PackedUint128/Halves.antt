-- ===== src/MoeMath/PackedUint128/Halves.antt =====
-- What a packed word holds: `encode` as a sum, and the halves that `decode` reads back.
use arbitrage_bot_v.Base.{ℕ, ◌+◌, ◌*◌, ◌/◌, ◌%◌, ◌^◌, ◌<◌, ◌≡◌, ap, ◌∙◌, arith}
use arbitrage_bot_v.Base.{bit_or}
use arbitrage_bot_v.Base.Bits.{bit_and_mask, bit_or_join}
use arbitrage_bot_v.Base.Word.{word_mod}
use arbitrage_bot_v.MoeMath.PackedUint128.{encode, decode, decode_x, decode_y}

pub encode_sum : (a b : ℕ) → a < 2 ^ 128 → b < 2 ^ 128 → encode a b ≡ b * 2 ^ 128 + a
unfolding encode
encode_sum a b ha hb = ap (λ (x : ℕ). bit_or a x) (omega arith) ∙ bit_or_join 128 a b ha

pub encode-lt : (a b : ℕ) → a < 2 ^ 128 → b < 2 ^ 128 → encode a b < word_mod
encode-lt a b ha hb = omega (arith, encode_sum a b ha hb)

pub decode_x_lem : (z : ℕ) → decode_x z ≡ z % 2 ^ 64
unfolding decode_x
decode_x_lem z = omega (arith, bit_and_mask 128 z)

pub decode_y_lem : (z : ℕ) → decode_y z ≡ z / 2 ^ 128 % 2 ^ 64
unfolding decode_y
decode_y_lem z = omega arith

-- Reading back a packed pair gives each amount modulo 2 ^ 64.
pub decode-encode :
    (a b : ℕ) → a < 2 ^ 128 → b < 2 ^ 128 → decode (encode a b) ≡ (a % 2 ^ 64, b % 2 ^ 64)
unfolding decode
decode-encode a b ha hb = ground (arith, bit_and_mask 128 (encode a b), encode_sum a b ha hb)

-- A half that is read fits 64 bits.
pub decode-lt : (z : ℕ) → ((decode z).0 < 2 ^ 64) × ((decode z).1 < 2 ^ 64)
unfolding decode
decode-lt z = omega arith

-- ===== src/MoeMath/Encoded/Readers.antt =====
-- The typed readers of encoded.rs lose nothing: the casts keep the whole field.
use arbitrage_bot_v.Base.{ℕ, ◌-◌, ◌/◌, ◌%◌, ◌^◌, ◌≤◌, ◌<◌, bit_and, bit_or}
use arbitrage_bot_v.Base.{◌≡◌, ap, ◌∙◌, arith}
use arbitrage_bot_v.Base.Pow.{pow-pos}
use arbitrage_bot_v.Base.Bits.{bit_and_mask, bit_or_join}
use arbitrage_bot_v.MoeMath.Encoded.{
  decode, decode_u8, decode_u12, decode_u14, decode_u16, decode_u20, decode_u24, decode_u40,
  decode_u64, decode_u128,
}
use arbitrage_bot_v.MoeMath.Encoded.Fields.{decode_lem}
use native.Mathlib.Nat.{mod-lt, mod-eq_of_lt}

pub decode-lt : (x w o : ℕ) → decode x (2 ^ w - 1) o < 2 ^ w
decode-lt x w o = omega (arith, decode_lem x w o, mod-lt (x / 2 ^ o) (pow-pos w))

-- A cast, or a second mask, of `w` bits on a number below `2 ^ w` that fits one limb.
kept : (d m : ℕ) → d < m → m ≤ 2 ^ 64 → d / 1 % 2 ^ 64 % m ≡ d
kept d m h k = ap (λ (x : ℕ). x % m) (omega arith) ∙ mod-eq_of_lt h

masked : (w d : ℕ) → d < 2 ^ w → d < 2 ^ 64 → bit_and (d / 1 % 2 ^ 64) (2 ^ w - 1) ≡ d
masked w d h k =
    ap (λ (x : ℕ). bit_and x (2 ^ w - 1)) (omega arith) ∙ bit_and_mask w d ∙ mod-eq_of_lt h

masked_cast :
    (w b d : ℕ)
    → d < 2 ^ w
    → 2 ^ w ≤ 2 ^ b
    → 2 ^ w ≤ 2 ^ 64
    → bit_and (d / 1 % 2 ^ 64) (2 ^ w - 1) % 2 ^ b ≡ d
masked_cast w b d h k l =
    ap (λ (x : ℕ). x % 2 ^ b) (masked w d h (omega arith)) ∙ mod-eq_of_lt (omega arith)

pub decode_u8_lem : (x o : ℕ) → decode_u8 x o ≡ decode x (2 ^ 8 - 1) o
unfolding decode_u8
decode_u8_lem x o = kept _ (2 ^ 8) (decode-lt x 8 o) (omega arith)

pub decode_u16_lem : (x o : ℕ) → decode_u16 x o ≡ decode x (2 ^ 16 - 1) o
unfolding decode_u16
decode_u16_lem x o = kept _ (2 ^ 16) (decode-lt x 16 o) (omega arith)

pub decode_u12_lem : (x o : ℕ) → decode_u12 x o ≡ decode x (2 ^ 12 - 1) o
unfolding decode_u12
decode_u12_lem x o =
    masked_cast 12 16 (decode x (2 ^ 12 - 1) o) (decode-lt x 12 o) (omega arith) (omega arith)

pub decode_u14_lem : (x o : ℕ) → decode_u14 x o ≡ decode x (2 ^ 14 - 1) o
unfolding decode_u14
decode_u14_lem x o =
    masked_cast 14 16 (decode x (2 ^ 14 - 1) o) (decode-lt x 14 o) (omega arith) (omega arith)

pub decode_u20_lem : (x o : ℕ) → decode_u20 x o ≡ decode x (2 ^ 20 - 1) o
unfolding decode_u20
decode_u20_lem x o =
    masked_cast 20 32 (decode x (2 ^ 20 - 1) o) (decode-lt x 20 o) (omega arith) (omega arith)

pub decode_u24_lem : (x o : ℕ) → decode_u24 x o ≡ decode x (2 ^ 24 - 1) o
unfolding decode_u24
decode_u24_lem x o =
    masked_cast 24 32 (decode x (2 ^ 24 - 1) o) (decode-lt x 24 o) (omega arith) (omega arith)

pub decode_u40_lem : (x o : ℕ) → decode_u40 x o ≡ decode x (2 ^ 40 - 1) o
unfolding decode_u40
decode_u40_lem x o = masked 40 _ (decode-lt x 40 o) (omega (arith, decode-lt x 40 o))

pub decode_u64_lem : (x o : ℕ) → decode_u64 x o ≡ decode x (2 ^ 64 - 1) o
unfolding decode_u64
decode_u64_lem x o = omega (arith, decode-lt x 64 o)

pub decode_u128_lem : (x o : ℕ) → decode_u128 x o ≡ decode x (2 ^ 128 - 1) o
unfolding decode_u128
decode_u128_lem x o =
    let d = decode x (2 ^ 128 - 1) o in
    ap (λ (t : ℕ). bit_or (d / 1 % 2 ^ 64) t) (omega (arith, decode-lt x 128 o))
    ∙ bit_or_join 64 (d / 1 % 2 ^ 64) (d / 2 ^ 64) (omega arith)
    ∙ omega (arith, decode-lt x 128 o)

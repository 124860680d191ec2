-- ===== src/MoeMath/SafeCast/Laws.antt =====
-- Which casts of safe_cast.rs keep the value that they accept.
use arbitrage_bot_v.Base.{ℕ, ◌%◌, ◌^◌, ◌≤◌, ◌<◌, ◌≡◌, ◌≢◌, refl, ltb, if◌then◌else◌, arith}
use arbitrage_bot_v.MoeMath.Error.{Result, ok, err, value_exceeds_bits}
use arbitrage_bot_v.MoeMath.SafeCast.{
  to_u8, to_u16, to_u24, to_u32, to_u40, to_u64, to_u88, to_u128,
}

-- What a cast to `w` bits makes of `v`: the value unchanged, or an error that names the width.
abbrev pub exact_cast : ℕ → ℕ → Result ℕ
exact_cast w v = if ltb v (2 ^ w) then ok v else err (value_exceeds_bits w)

-- The six casts of up to 64 bits accept exactly the values that fit, and keep them.
pub narrow_casts :
    (v : ℕ)
    → (to_u8 v ≡ exact_cast 8 v)
      × (to_u16 v ≡ exact_cast 16 v)
      × (to_u24 v ≡ exact_cast 24 v)
      × (to_u32 v ≡ exact_cast 32 v)
      × (to_u40 v ≡ exact_cast 40 v)
      × (to_u64 v ≡ exact_cast 64 v)
unfolding to_u8 to_u16 to_u24 to_u32 to_u40 to_u64
narrow_casts v =
    (ground arith, ground arith, ground arith, ground arith, ground arith, ground arith)

-- Every value of more than 64 bits that `to_u128` accepts is changed by it, to its low 64 bits.
pub to_u128-truncates :
    (v : ℕ) → 2 ^ 64 ≤ v → v < 2 ^ 128 → (r : ℕ) × (to_u128 v ≡ ok r) × (r ≢ v) × (r ≡ v % 2 ^ 64)
unfolding to_u128
to_u128-truncates v lo hi = (v % 2 ^ 64, ground arith, omega arith, refl)

-- Of the values of 65 to 88 bits `to_u88` refuses those of more than 72 bits, and changes the
-- others to their low 64 bits.
pub to_u88-truncates :
    (v : ℕ)
    → 2 ^ 64 ≤ v
    → v < 2 ^ 88
    → (to_u88 v ≡ (if ltb v (2 ^ 72) then ok (v % 2 ^ 64) else err (value_exceeds_bits 88)))
      × (v % 2 ^ 64 ≢ v)
unfolding to_u88
to_u88-truncates v lo hi = (ground arith, omega arith)

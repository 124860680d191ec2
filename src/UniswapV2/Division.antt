-- ===== src/UniswapV2/Division.antt =====
-- `div_uu` against the division that it stands for.
use arbitrage_bot_v.Base.{ℕ, ◌+◌, ◌-◌, ◌*◌, ◌/◌, ◌%◌, ◌^◌, ◌≤◌, ◌<◌, ◌≡◌, refl, ap, ◌∙◌, arith}
use arbitrage_bot_v.Base.{
  ltb, leb, ◌==◌, ==_ne, true, false, if◌then◌else◌, bit_and, Bool-cases, inl, inr,
}
use arbitrage_bot_v.Base.Word.{shl256, shr, mul256, sub256, add256}
use arbitrage_bot_v.Base.Bits.{bit_and_mask}
use arbitrage_bot_v.UniswapV2.{ok, div_uu}
use native.Mathlib.Nat.{div-mul-le_self, div-add-mod', mod-lt, div-eq_of_lt}

-- The check of the estimate against `x << 64` finds nothing to correct.
module _ (X y q : ℕ) (hX : X < 2 ^ 256) (hy : 0 < y) (hq : q < 2 ^ 128) (exact : q ≡ X / y) where
  below : q * (y / 2 ^ 128) * 2 ^ 128 + q * (y % 2 ^ 128) ≤ X
  below = omega (
    arith,
    div-mul-le_self X y,
    ap (λ (t : ℕ). t * y) exact,
    ap (λ (t : ℕ). q * t) (div-add-mod' y (2 ^ 128)),
  )

  remainder : (X - (q * (y / 2 ^ 128) * 2 ^ 128 + q * (y % 2 ^ 128))) / y ≡ 0
  remainder = div-eq_of_lt (
      omega (
        arith,
        mod-lt X hy,
        div-add-mod' X y,
        ap (λ (t : ℕ). t * y) exact,
        ap (λ (t : ℕ). q * t) (div-add-mod' y (2 ^ 128)),
      ))

-- Below 2 ^ 192 the result is the quotient in 64.64 fixed point, rounded down, or 0 where that has
-- more than 128 bits; the rounding error is never reported.
pub div_uu-floor :
    (x y : ℕ)
    → x < 2 ^ 192
    → 0 < y
    → div_uu x y ≡ ok (if ltb (x * 2 ^ 64 / y) (2 ^ 128) then x * 2 ^ 64 / y else 0)
unfolding div_uu
div_uu-floor x y hx hy =
    let X = x * 2 ^ 64 in
    let q = X / y in
    let sound = ==_ne y 0 (omega arith) in
    let small : leb x (2 ^ 192 - 1) ≡ true = ground arith in
    let shifted : shl256 x 64 ≡ X = omega arith in
    elim (Bool-cases (ltb (2 ^ 128 - 1) q)) [
      | inl large ↦
          let wide : ltb q (2 ^ 128) ≡ false = ground arith in
          rw (sound, small, shifted, large, wide)
      | inr fits ↦
          let narrow : q < 2 ^ 128 = ground arith in
          let wide : ltb q (2 ^ 128) ≡ true = ground arith in
          let whole = below X y q (omega arith) hy narrow refl in
          let rest = remainder X y q (omega arith) hy narrow refl in
          let hi = q * (y / 2 ^ 128) in
          let lo = q * (y % 2 ^ 128) in
          let e₁ : mul256 q (shr y 128) ≡ hi = omega arith in
          let e₂ : mul256 q (bit_and y (2 ^ 128 - 1)) ≡ lo =
            ap (mul256 q) (bit_and_mask 128 y) ∙ omega arith in
          let e₃ : ltb X lo ≡ false = ground arith in
          let e₄ : sub256 X lo ≡ X - lo = omega arith in
          let e₅ : shl256 hi 128 ≡ hi * 2 ^ 128 = omega arith in
          let e₆ : ltb (X - lo) (hi * 2 ^ 128) ≡ false = ground arith in
          let e₇ : sub256 (X - lo) (hi * 2 ^ 128) ≡ X - (hi * 2 ^ 128 + lo) = omega arith in
          let e₈ : (shr x 192 == shr hi 128) ≡ true = ground arith in
          let e₉ : add256 q 0 ≡ q = omega arith in
          rw (sound, small, shifted, fits, wide, e₁, e₂, e₃, e₄, e₅, e₆, e₇, e₈, rest, e₉, fits)
    ]

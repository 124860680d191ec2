-- ===== src/Base/Digit.antt =====
-- The binary digits of a number, and what `&`, `|`, `^` and `!` do to each of them.
use Prim.Native.Nat.{ℕ, zero, suc, ◌+◌, ◌*◌, ◌/◌, ◌%◌, ◌^◌, ◌<◌, ◌≤◌, min, max}
use Prim.Native.Nat.{bit_and, bit_or, bit_xor}
use mathlib.Core.Path.{◌≡◌, ap, ◌∙◌, refl, sym}
use mathlib.Core.Logic.{◌≢◌}
use native.Mathlib.Nat.{
  pow-suc, pow-le-pow_right, add-suc, add-zero, div-add-mod', div-div-eq-div-mul,
}
use native.Mathlib.Omega.{arith}
use arbitrage_bot_v.Base.Pow.{pow-pos, mod-mul-div}
use arbitrage_bot_v.Base.Bits.{bit_and_step, bit_or_step, bit_xor_step}

-- The `i`-th digit, the lowest first.
abbrev pub digit : ℕ → ℕ → ℕ
digit zero x = x % 2
digit (suc i) x = digit i (x / 2)

pub digit-bit_and : (i x y : ℕ) → digit i (bit_and x y) ≡ min (digit i x) (digit i y)
digit-bit_and zero x y = ground (arith, bit_and_step x y)
digit-bit_and (suc i) x y =
    ap (digit i) (ground (arith, bit_and_step x y)) ∙ digit-bit_and i (x / 2) (y / 2)

pub digit-bit_or : (i x y : ℕ) → digit i (bit_or x y) ≡ max (digit i x) (digit i y)
digit-bit_or zero x y = ground (arith, bit_or_step x y)
digit-bit_or (suc i) x y =
    ap (digit i) (ground (arith, bit_or_step x y)) ∙ digit-bit_or i (x / 2) (y / 2)

pub digit-bit_xor : (i x y : ℕ) → digit i (bit_xor x y) ≡ (digit i x + digit i y) % 2
digit-bit_xor zero x y = ground (arith, bit_xor_step x y)
digit-bit_xor (suc i) x y =
    ap (digit i) (ground (arith, bit_xor_step x y)) ∙ digit-bit_xor i (x / 2) (y / 2)

pub digit-zero : (i : ℕ) → digit i 0 ≡ 0
digit-zero zero = refl
digit-zero (suc i) = digit-zero i

pub digit-lt : (i x : ℕ) → digit i x < 2
digit-lt zero x = omega arith
digit-lt (suc i) x = digit-lt i (x / 2)

-- A power of two has one digit.
pub digit-pow_self : (k : ℕ) → digit k (2 ^ k) ≡ 1
digit-pow_self zero = refl
digit-pow_self (suc k) = ap (digit k) (omega (arith, pow-suc 2 k)) ∙ digit-pow_self k

pub digit-pow_ne : (i k : ℕ) → i ≢ k → digit i (2 ^ k) ≡ 0
digit-pow_ne zero zero h = absurd (h refl)
digit-pow_ne zero (suc k) h = omega (arith, pow-suc 2 k)
digit-pow_ne (suc i) zero h = digit-zero i
digit-pow_ne (suc i) (suc k) h =
    ap (digit i) (omega (arith, pow-suc 2 k)) ∙ digit-pow_ne i k (omega arith)

-- Digits outside a number, and of a shifted or a cut one.
digit-small : (i x : ℕ) → x < 2 ^ i → digit i x ≡ 0
digit-small zero x h = omega arith
digit-small (suc i) x h = digit-small i (x / 2) (omega (arith, pow-suc 2 i))

pub digit-top : (i x : ℕ) → 2 ^ i ≤ x → x < 2 ^ suc i → digit i x ≡ 1
digit-top zero x low high = omega arith
digit-top (suc i) x low high =
    digit-top i (x / 2) (omega (arith, pow-suc 2 i)) (omega (arith, pow-suc 2 i, pow-suc 2 (suc i)))

pub digit-above : (w i x : ℕ) → x < 2 ^ w → w ≤ i → digit i x ≡ 0
digit-above w i x fits h =
    let wider : 2 ^ w ≤ 2 ^ i = pow-le-pow_right {n = 2} (omega arith) h in
    digit-small i x (omega arith)

-- Shifts move the digits.
pub digit-shift_left : (k i x : ℕ) → digit (i + k) (x * 2 ^ k) ≡ digit i x
digit-shift_left zero i x =
    ap (λ (t : ℕ). digit t (x * 1)) (add-zero i) ∙ ap (digit i) (omega arith)
digit-shift_left (suc k) i x =
    let half : x * 2 ^ suc k / 2 ≡ x * 2 ^ k = omega (arith, ap (λ (t : ℕ). x * t) (pow-suc 2 k)) in
    ap (λ (t : ℕ). digit t (x * 2 ^ suc k)) (add-suc i k)
    ∙ ap (digit (i + k)) half
    ∙ digit-shift_left k i x

pub digit-shift_low : (k i x : ℕ) → i < k → digit i (x * 2 ^ k) ≡ 0
digit-shift_low zero i x low = absurd (omega arith)
digit-shift_low (suc k) zero x low = omega (arith, ap (λ (t : ℕ). x * t) (pow-suc 2 k))
digit-shift_low (suc k) (suc i) x low =
    let half : x * 2 ^ suc k / 2 ≡ x * 2 ^ k = omega (arith, ap (λ (t : ℕ). x * t) (pow-suc 2 k)) in
    ap (digit i) half ∙ digit-shift_low k i x (omega arith)

pub digit-shift_right : (k i x : ℕ) → digit i (x / 2 ^ k) ≡ digit (i + k) x
digit-shift_right zero i x =
    ap (digit i) (omega arith) ∙ ap (λ (t : ℕ). digit t x) (sym (add-zero i))
digit-shift_right (suc k) i x =
    let split : x / 2 ^ suc k ≡ x / 2 / 2 ^ k =
      ap (λ (t : ℕ). x / t) (omega (arith, pow-suc 2 k)) ∙ sym (div-div-eq-div-mul x 2 (2 ^ k)) in
    ap (digit i) split
    ∙ digit-shift_right k i (x / 2)
    ∙ ap (λ (t : ℕ). digit t x) (sym (add-suc i k))

-- The digits that stay when a number is cut.
pub digit-cut : (w i x : ℕ) → i < w → digit i (x % 2 ^ w) ≡ digit i x
digit-cut zero i x low = absurd (omega arith)
digit-cut (suc w) zero x low =
    omega (arith, div-add-mod' x (2 ^ suc w), ap (λ (t : ℕ). x / 2 ^ suc w * t) (pow-suc 2 w))
digit-cut (suc w) (suc i) x low =
    let half : x % 2 ^ suc w / 2 ≡ x / 2 % 2 ^ w =
      ap (λ (t : ℕ). x % t / 2) (omega (arith, pow-suc 2 w))
      ∙ mod-mul-div x 2 (2 ^ w) (omega arith) (pow-pos w) in
    ap (digit i) half ∙ digit-cut w i (x / 2) (omega arith)

-- A number whose digits below its width are all zero is zero.
pub zero_of_digits : (w x : ℕ) → x < 2 ^ w → ((i : ℕ) → i < w → digit i x ≡ 0) → x ≡ 0
zero_of_digits zero x fits zeros = omega arith
zero_of_digits (suc w) x fits zeros =
    let lowest : x % 2 ≡ 0 = zeros 0 (omega arith) in
    let rest =
      zero_of_digits w (x / 2) (omega (arith, pow-suc 2 w))
        (λ i low. zeros (suc i) (omega arith)) in
    omega arith

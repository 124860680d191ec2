-- ===== src/MoeMath/BitMath/Closest.antt =====
-- The highest and the lowest bit by the digits of a word, and what the searches beside a bit find.
use arbitrage_bot_v.Base.{
  ℕ, zero, suc, ◌+◌, ◌-◌, ◌*◌, ◌/◌, ◌%◌, ◌^◌, ◌≤◌, ◌<◌, ◌≡◌, ◌≢◌, refl, ap, subst, ◌∙◌, sym, arith,
  ◌⊎◌, inl, inr, leb, leb→le, ◌==◌, ==_ne, Bool-cases, true,
}
use native.Mathlib.Decide.{ℕ_discrete}
use native.Mathlib.Nat.{div-le_self, pow-suc}
use arbitrage_bot_v.Base.Digit.{
  digit, digit-zero, digit-top, digit-above, digit-shift_left, digit-shift_low, digit-shift_right,
  digit-cut,
}
use arbitrage_bot_v.Base.Word.{shl256, shr}
use arbitrage_bot_v.MoeMath.Error.{ok}
use arbitrage_bot_v.MoeMath.BitMath.{
  leading_zeros, trailing_zeros, most_significant_bit, least_significant_bit, no_bit,
  closest_bit_right, closest_bit_left,
}

-- The digit is the highest one of the number.
abbrev pub IsHighest : ℕ → ℕ → Type 0
IsHighest x k = (digit k x ≡ 1) × ((i : ℕ) → k < i → digit i x ≡ 0)

pub leading_zeros-IsHighest :
    (width x : ℕ)
    → x < 2 ^ width
    → 0 < x
    → (leading_zeros width x < width) × IsHighest x (width - 1 - leading_zeros width x)
leading_zeros-IsHighest zero x fits positive = absurd (omega arith)
leading_zeros-IsHighest (suc width) x fits positive = elim (Bool-cases (leb (2 ^ width) x)) [
  | inl top ↦
      let whole : IsHighest x width = (
        digit-top width x (leb→le (2 ^ width) x top) fits,
        λ i above. digit-above (suc width) i x fits above,
      ) in
      rw top (omega arith, subst (IsHighest x) (omega arith) whole)
  | inr lower ↦
      let below : x < 2 ^ width = ground arith in
      let (found, highest) = leading_zeros-IsHighest width x below positive in
      let same : suc width - 1 - suc (leading_zeros width x) ≡ width - 1 - leading_zeros width x =
        omega arith in
      rw lower (omega arith, rw same highest)
]

-- The digit is the lowest one of the number.
abbrev pub IsLowest : ℕ → ℕ → Type 0
IsLowest x k = (digit k x ≡ 1) × ((i : ℕ) → i < k → digit i x ≡ 0)

pub trailing_zeros-IsLowest :
    (width x : ℕ)
    → x < 2 ^ width
    → 0 < x
    → (trailing_zeros width x < width) × IsLowest x (trailing_zeros width x)
trailing_zeros-IsLowest zero x fits positive = absurd (omega arith)
trailing_zeros-IsLowest (suc width) x fits positive = elim (ℕ_discrete (x % 2) 1) [
  | yes odd ↦
      let test : (x % 2 == 1) ≡ true = ground arith in
      rw test (omega arith, (odd, λ i below. absurd (omega arith)))
  | no even ↦
      let (found, lowest) =
        trailing_zeros-IsLowest width (x / 2) (omega (arith, pow-suc 2 width)) (omega arith) in
      rw (==_ne (x % 2) 1 even)
        (omega arith, (lowest.0, λ i below. lower_zeros i x even lowest.1 below))
]
  where
    lower_zeros :
        {k : ℕ} (i x : ℕ)
        → x % 2 ≢ 1
        → ((j : ℕ) → j < k → digit j (x / 2) ≡ 0)
        → i < suc k
        → digit i x ≡ 0
    lower_zeros zero x even zeros below = omega arith
    lower_zeros (suc i) x even zeros below = zeros i (omega arith)

-- The bits of a word from a place down, or up, to another.
abbrev pub ZeroBetween : ℕ → ℕ → ℕ → Type 0
ZeroBetween x low high = (i : ℕ) → low ≤ i → i ≤ high → digit i x ≡ 0

pub most_significant_bit-IsHighest :
    (x : ℕ)
    → x < 2 ^ 256
    → x ≢ 0
    → (k : ℕ) × (most_significant_bit x ≡ ok k) × (k < 256) × IsHighest x k
unfolding most_significant_bit
most_significant_bit-IsHighest x fits some_bit =
    let (found, highest) = leading_zeros-IsHighest 256 x fits (omega arith) in
    (
      255 - leading_zeros 256 x,
      rw (==_ne x 0 some_bit) refl,
      omega arith,
      subst (IsHighest x) (omega arith) highest,
    )

pub least_significant_bit-IsLowest :
    (x : ℕ)
    → x < 2 ^ 256
    → x ≢ 0
    → (k : ℕ) × (least_significant_bit x ≡ ok k) × (k < 256) × IsLowest x k
unfolding least_significant_bit
least_significant_bit-IsLowest x fits some_bit =
    let (found, lowest) = trailing_zeros-IsLowest 256 x fits (omega arith) in
    (trailing_zeros 256 x, rw (==_ne x 0 some_bit) refl, found, lowest)

-- What `x << s` has at the places that stay, and what it shifts in.
shl-digit : (x s i : ℕ) → i + s < 256 → digit (i + s) (shl256 x s) ≡ digit i x
shl-digit x s i stays = digit-cut 256 (i + s) (x * 2 ^ s) stays ∙ digit-shift_left s i x

shl-low : (x s i : ℕ) → i < s → i < 256 → digit i (shl256 x s) ≡ 0
shl-low x s i low stays = digit-cut 256 i (x * 2 ^ s) stays ∙ digit-shift_low s i x low

-- The highest bit of `x << s`, with `s` at most 255, as a bit of `x`.
shl-IsHighest :
    (x s m : ℕ)
    → s ≤ 255
    → m < 256
    → IsHighest (shl256 x s) m
    → (s ≤ m) × (digit (m - s) x ≡ 1) × ZeroBetween x (suc (m - s)) (255 - s)
shl-IsHighest x s m hs hm highest =
    let high : s ≤ m = elim (ℕ_discrete (m - s + s) m) [
      | yes fits ↦ omega arith
      | no below ↦ absurd (omega (arith, shl-low x s m (omega arith) hm, highest.0))
    ] in
    let place : m - s + s ≡ m = omega arith in
    (
      high,
      sym (shl-digit x s (m - s) (omega arith))
          ∙ ap (λ (t : ℕ). digit t (shl256 x s)) place
          ∙ highest.0,
      λ i low up. sym (shl-digit x s i (omega arith)) ∙ highest.1 (i + s) (omega arith),
    )

-- In a 256-bit word the search to the right of a bit finds the highest bit that is set at or
-- below it, or says that none is set there.
pub closest_bit_right-nearest :
    (x bit : ℕ)
    → x < 2 ^ 256
    → bit < 256
    → ((closest_bit_right x bit ≡ ok no_bit) × ZeroBetween x 0 bit)
      ⊎ ((r : ℕ) × (closest_bit_right x bit ≡ ok r)
          × (r ≤ bit)
          × (digit r x ≡ 1)
          × ZeroBetween x (suc r) bit)
unfolding closest_bit_right
closest_bit_right-nearest x bit fits small = elim (ℕ_discrete (shl256 x (255 - bit)) 0) [
  | yes nothing ↦ inl (
    rw nothing refl,
    λ i low high.
        sym (shl-digit x (255 - bit) i (omega arith))
        ∙ ap (digit (i + (255 - bit))) nothing
        ∙ digit-zero (i + (255 - bit)),
  )
  | no something ↦ inr (
      let shift = 255 - bit in
      let (m, found, hm, highest) =
        most_significant_bit-IsHighest (shl256 x shift) (omega arith) something in
      let (high, one, zeros) = shl-IsHighest x shift m (omega arith) hm highest in
      (
        m - shift,
        rw (==_ne (shl256 x shift) 0 something, found) (ap ok (omega arith)),
        omega arith,
        one,
        λ i low up. zeros i low (omega arith),
      ))
]

up_to : (bit i x : ℕ) → bit ≤ i → digit i x ≡ digit (i - bit) (shr x bit)
up_to bit i x low =
    let place : i ≡ i - bit + bit = omega arith in
    ap (λ (t : ℕ). digit t x) place ∙ sym (digit-shift_right bit (i - bit) x)

-- In a 256-bit word the search to the left of a bit finds the lowest bit that is set at or
-- above it, or says that none is set there.
pub closest_bit_left-nearest :
    (x bit : ℕ)
    → x < 2 ^ 256
    → bit < 256
    → ((closest_bit_left x bit ≡ ok no_bit) × ZeroBetween x bit 255)
      ⊎ ((r : ℕ) × (closest_bit_left x bit ≡ ok r)
          × (bit ≤ r)
          × (r < 256)
          × (digit r x ≡ 1)
          × ((i : ℕ) → bit ≤ i → i < r → digit i x ≡ 0))
unfolding closest_bit_left
closest_bit_left-nearest x bit fits small = elim (ℕ_discrete (shr x bit) 0) [
  | yes nothing ↦ inl (
    rw nothing refl,
    λ i low high. up_to bit i x low ∙ ap (digit (i - bit)) nothing ∙ digit-zero (i - bit),
  )
  | no something ↦ inr (
      let (m, found, hm, lowest) =
        least_significant_bit-IsLowest (shr x bit) (omega (arith, div-le_self x (2 ^ bit)))
          something in
      let one : digit (m + bit) x ≡ 1 = sym (digit-shift_right bit m x) ∙ lowest.0 in
      let inside : m + bit < 256 = elim (ℕ_discrete (m + bit - 256 + 256) (m + bit)) [
        | yes outside ↦ absurd (omega (arith, digit-above 256 (m + bit) x fits (omega arith), one))
        | no within ↦ omega arith
      ] in
      (
        m + bit,
        rw (==_ne (shr x bit) 0 something, found) (ap ok (omega arith)),
        omega arith,
        inside,
        one,
        λ i low up. up_to bit i x low ∙ lowest.1 (i - bit) (omega arith),
      ))
]

-- ===== src/MoeMath/Uint256x256Math/SquareRoot.antt =====
-- The square root of uint256x256_math.rs is the one rounded down.
use arbitrage_bot_v.Base.{
  ℕ, zero, suc, ◌+◌, ◌-◌, ◌*◌, ◌/◌, ◌^◌, ◌≤◌, ◌<◌, ◌≡◌, refl, sym, ap, ◌∙◌, inl, inr, arith, false,
  subst, Bool-cases, leb, leb→le, ◌==◌, min,
}
use native.Mathlib.Decide.{ℕ_discrete}
use native.Mathlib.Nat.{pow-le-pow_right, mul-le-mul_left, div-le_self}
use arbitrage_bot_v.Base.Word.{add256, shl256, shr}
use arbitrage_bot_v.Base.Pow.{pow_add, pow-pos}
use arbitrage_bot_v.Base.Digit.{digit-shift_right, zero_of_digits}
use arbitrage_bot_v.MoeMath.Error.{ok}
use arbitrage_bot_v.MoeMath.BitMath.Closest.{IsHighest, most_significant_bit-IsHighest}
use arbitrage_bot_v.MoeMath.Uint256x256Math.{sqrt_loop, sqrt}

abbrev pub IsRoot : ℕ → ℕ → Type 0
IsRoot x r = (r * r ≤ x) × (x < (r + 1) * (r + 1))

means_from : (a d : ℕ) → 4 * (a * (a + d)) ≤ (a + (a + d)) * (a + (a + d))
means_from a d = ground arith

means : (a b : ℕ) → 4 * (a * b) ≤ (a + b) * (a + b)
means a b = elim (Bool-cases (leb a b)) [
  | inl le ↦
      subst (λ (c : ℕ). 4 * (a * c) ≤ (a + c) * (a + c)) (ground arith) (means_from a (b - a))
  | inr gt ↦
      let turned : 4 * (b * a) ≤ (b + a) * (b + a) =
        subst (λ (c : ℕ). 4 * (b * c) ≤ (b + c) * (b + c)) (ground arith) (means_from b (a - b)) in
      ground arith
]

square_from : (a d : ℕ) → a * a ≤ (a + d) * (a + d)
square_from a d = ground arith

square_mono : (a b : ℕ) → a ≤ b → a * a ≤ b * b
square_mono a b le = subst (λ (c : ℕ). a * a ≤ c * c) (omega (arith, le)) (square_from a (b - a))

next_above : (x g : ℕ) → 0 < g → x < ((g + x / g) / 2 + 1) * ((g + x / g) / 2 + 1)
next_above x g positive =
    let next = (g + x / g) / 2 + 1 in
    ground (arith, means g (x / g + 1), square_mono (g + (x / g + 1)) (2 * next) (omega arith))

too_far : (g d : ℕ) → 0 < g → (g + 1) * (g + 1) ≤ g * (g + 3 + d)
too_far g d positive = ground arith

quotient_small : (x g : ℕ) → 0 < g → x < (g + 1) * (g + 1) → x / g ≤ g + 2
quotient_small x g positive above = elim (Bool-cases (leb (x / g) (g + 2))) [
  | inl le ↦ leb→le (x / g) (g + 2) le
  | inr gt ↦
      (let d = x / g - (g + 3) in
        let far = too_far g d positive in
        let same : (g * (x / g) ≡ g * (g + 3 + d)) = ap (λ (q : ℕ). g * q) (ground arith) in
        ground arith)
]

halved-pos : (x g : ℕ) → 0 < x → 0 < g → 0 < (g + x / g) / 2
halved-pos x g some_x positive = elim (ℕ_discrete g 1) [
  | yes one ↦ rw one (omega arith)
  | no more ↦ omega arith
]

-- The guess stays above the root and positive, and falls in each round but the last.
loop-IsRoot :
    (rounds x g : ℕ)
    → 0 < x
    → 0 < g
    → g < 2 ^ 200
    → g ≤ rounds
    → x < (g + 1) * (g + 1)
    → (r : ℕ) × (sqrt_loop rounds x g ≡ ok r) × IsRoot x r
unfolding sqrt_loop
loop-IsRoot zero x g some_x positive small enough above = absurd (omega arith)
loop-IsRoot (suc rounds) x g some_x positive small enough above =
    let q_small = quotient_small x g positive above in
    let next : (shr (add256 g (x / g)) 1 ≡ (g + x / g) / 2) = omega arith in
    let lower = next_above x g positive in
    let divides : ((g == 0) ≡ false) = ground arith in
    rw divides (elim (Bool-cases (leb g (shr (add256 g (x / g)) 1))) [
      | inl stops ↦
          let reached : g ≤ x / g = ground arith in
          let squared = mul-le-mul_left g reached in
          let chosen : (min g (x / g) ≡ g) = omega (arith, reached) in
          rw stops (g, ap (λ (r : ℕ). ok r) chosen, (ground arith, above))
      | inr falls ↦
          let moved : (sqrt_loop rounds x ((g + x / g) / 2)
              ≡ sqrt_loop rounds x (shr (add256 g (x / g)) 1)) =
            ap (λ (n : ℕ). sqrt_loop rounds x n) (sym next) in
          rw falls (
            rw next (
              loop-IsRoot rounds x ((g + x / g) / 2) some_x (halved-pos x g some_x positive)
                (ground arith) (ground arith) lower))
    ])

highest-lt : (x k : ℕ) → x < 2 ^ 256 → IsHighest x k → x < 2 ^ (k + 1)
highest-lt x k fits highest =
    let none_above : x / 2 ^ (k + 1) ≡ 0 =
      zero_of_digits 256 (x / 2 ^ (k + 1)) (omega (arith, div-le_self x (2 ^ (k + 1))))
        (λ i _. digit-shift_right (k + 1) i x ∙ highest.1 (i + (k + 1)) (omega arith)) in
    ground (arith, pow-pos (k + 1))

first_guess : (x k : ℕ) → x < 2 ^ (k + 1) → x < (2 ^ (k / 2 + 1) + 1) * (2 ^ (k / 2 + 1) + 1)
first_guess x k below =
    let h = k / 2 + 1 in
    let larger : 2 ^ (k + 1) ≤ 2 ^ (h + h) = pow-le-pow_right (omega arith) (omega arith) in
    let split = pow_add h h in ground (arith, larger, split, below)

begun-IsRoot :
    (x k : ℕ)
    → 0 < x
    → k < 256
    → x < 2 ^ (k + 1)
    → (r : ℕ) × (sqrt_loop (shl256 1 (k / 2 + 1)) x (shl256 1 (k / 2 + 1)) ≡ ok r) × IsRoot x r
begun-IsRoot x k some_x small below =
    let h = k / 2 + 1 in
    let bounded : 2 ^ h ≤ 2 ^ 128 =
      pow-le-pow_right {n = 2} (omega arith) {j = 128} (omega (arith, small)) in
    let guess : (2 ^ h ≡ shl256 1 h) = omega (arith, bounded) in
    subst (λ (g : ℕ). (r : ℕ) × (sqrt_loop g x g ≡ ok r) × IsRoot x r) guess
      (loop-IsRoot (2 ^ h) x (2 ^ h) some_x (pow-pos h) (omega (arith, bounded)) (omega arith)
        (first_guess x k below))

-- Of every word the square root is found, and it is the largest number whose square is at most the
-- word.
pub sqrt-IsRoot :
    (x : ℕ) → x < 2 ^ 256 → (r : ℕ) × (sqrt x ≡ ok r) × (r * r ≤ x) × (x < (r + 1) * (r + 1))
unfolding sqrt
sqrt-IsRoot x fits = elim (ℕ_discrete x 0) [
  | yes nothing ↦ (0, rw nothing refl, ground arith, ground arith)
  | no something ↦
      let (k, found, small, highest) = most_significant_bit-IsHighest x fits something in
      let some_x : ((x == 0) ≡ false) = ground arith in
      let (r, ends, root) =
        begun-IsRoot x k (omega (arith, something)) small (highest-lt x k fits highest) in
      (r, rw some_x (rw found ends), root.0, root.1)
]

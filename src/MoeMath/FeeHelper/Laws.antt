-- ===== src/MoeMath/FeeHelper/Laws.antt =====
-- The fees of fee_helper.rs: rounding up, and that the two ways to charge agree.
use arbitrage_bot_v.Base.{
  ℕ, ◌+◌, ◌-◌, ◌*◌, ◌/◌, ◌^◌, ◌≤◌, ◌<◌, ◌≡◌, ap, ◌∙◌, ltb, true, false, arith,
}
use arbitrage_bot_v.Base.Word.{add256, sub256, mul256}
use arbitrage_bot_v.MoeMath.Error.{ok}
use arbitrage_bot_v.MoeMath.FeeHelper.{get_fee_amount_from, get_fee_amount, precision, max_fee}
use native.Mathlib.Nat.{mul-le-mul, mul-le-mul_left, lt_of_mul-lt-mul_right, div-add-mod', mod-lt}

-- `fee` is the quotient rounded up: the least number that covers the numerator.
abbrev pub IsCeiling : ℕ → ℕ → ℕ → Type 0
IsCeiling n d fee = (n ≤ fee * d) × (fee * d < n + d)

product-lt : (a t : ℕ) → a < 2 ^ 128 → t ≤ max_fee → a * t < 2 ^ 200
product-lt a t ha ht =
    let largest : a * t ≤ 2 ^ 128 * max_fee = mul-le-mul {n₂ = 2 ^ 128} (omega arith) ht in
    omega arith

ceiling : (n d : ℕ) → 0 < d → IsCeiling n d ((n + (d - 1)) / d)
ceiling n d h =
    let split = div-add-mod' (n + (d - 1)) d in
    let rest = mod-lt (n + (d - 1)) h in (omega arith, omega arith)

ceiling-le : (n d a fee : ℕ) → 0 < d → n ≤ a * d → IsCeiling n d fee → fee ≤ a
ceiling-le n d a fee h bound (lo, hi) =
    let below : fee * d < (a + 1) * d = omega arith in
    let strict = lt_of_mul-lt-mul_right d below in omega arith

ceiling_unique : (n d c c' : ℕ) → 0 < d → IsCeiling n d c → IsCeiling n d c' → c ≡ c'
ceiling_unique n d c c' h p q =
    let one : c * d < (c' + 1) * d = omega arith in
    let other : c' * d < (c + 1) * d = omega arith in
    let le = lt_of_mul-lt-mul_right d one in let ge = lt_of_mul-lt-mul_right d other in omega arith

-- Adding the fee to the amount turns the share of the net amount into one of the gross amount.
gross-IsCeiling :
    (a t fee : ℕ)
    → t ≤ max_fee
    → IsCeiling (a * t) (precision - t) fee
    → IsCeiling ((a + fee) * t) precision fee
gross-IsCeiling a t fee ht (lo, hi) =
    let whole : fee * (precision - t + t) ≡ fee * precision =
      ap (λ (x : ℕ). fee * x) (omega arith) in
    (omega arith, omega arith)

-- A fee on a gross amount never fails below the fee limit, is the share rounded up, and never
-- exceeds the amount.
pub get_fee_amount_from-IsCeiling :
    (a t : ℕ)
    → a < 2 ^ 128
    → t ≤ max_fee
    → (fee : ℕ) × (get_fee_amount_from a t ≡ ok fee) × IsCeiling (a * t) precision fee × (fee ≤ a)
unfolding get_fee_amount_from
get_fee_amount_from-IsCeiling a t ha ht =
    let small = product-lt a t ha ht in
    let share : a * t ≤ a * precision = mul-le-mul_left a (omega arith) in
    (
      (a * t + (precision - 1)) / precision,
      ground arith,
      ceiling (a * t) precision (omega arith),
      omega arith,
    )

-- A fee on a net amount never fails below the fee limit, is rounded up, and never exceeds the
-- amount.
pub get_fee_amount-IsCeiling :
    (a t : ℕ)
    → a < 2 ^ 128
    → t ≤ max_fee
    → (fee : ℕ) × (get_fee_amount a t ≡ ok fee) × IsCeiling (a * t) (precision - t) fee × (fee ≤ a)
unfolding get_fee_amount
get_fee_amount-IsCeiling a t ha ht =
    let d = precision - t in
    let small = product-lt a t ha ht in
    let fee = (a * t + (d - 1)) / d in
    let round = ceiling (a * t) d (omega arith) in
    let fits = ceiling-le (a * t) d a fee (omega arith) (mul-le-mul_left a (omega arith)) round in
    let plain : add256 (mul256 a t) (sub256 d 1) ≡ a * t + (d - 1) = omega arith in
    let allowed : ltb max_fee t ≡ false = ground arith in
    let narrow : ltb fee (2 ^ 128) ≡ true = ground arith in
    (fee, rw (allowed, plain, narrow), round, fits)

-- The fee added to a net amount is the fee taken from the sum of the two.
pub get_fee_amount_from-get_fee_amount :
    (a t fee : ℕ)
    → a + fee < 2 ^ 128
    → t ≤ max_fee
    → get_fee_amount a t ≡ ok fee
    → get_fee_amount_from (a + fee) t ≡ ok fee
get_fee_amount_from-get_fee_amount a t fee h ht e =
    let (net, e₁, round₁, _) = get_fee_amount-IsCeiling a t (omega arith) ht in
    let (gross, e₂, round₂, _) = get_fee_amount_from-IsCeiling (a + fee) t h ht in
    let same : net ≡ fee = ground arith in
    let round = gross-IsCeiling a t fee ht (rw (← same) round₁) in
    e₂ ∙ ap ok (ceiling_unique ((a + fee) * t) precision gross fee (omega arith) round₂ round)

-- ===== src/MoeMath/SampleMath/Averages.antt =====
-- The weighted average of two samples, where nothing wraps.
use arbitrage_bot_v.Base.{ℕ, ◌+◌, ◌*◌, ◌/◌, ◌^◌, ◌≤◌, ◌<◌, ◌≡◌, arith, min, max}
use arbitrage_bot_v.MoeMath.SampleMath.{weighted}
use native.Mathlib.Nat.{mul-le-mul_right, le-div_iff_mul-le, div-lt_iff_lt-mul}
use mathlib.Core.Path.{ap₂}

-- A weighted average lies between the two values, when the weighted sum fits 64 bits.
pub weighted_between :
    (c1 c2 w1 w2 : ℕ)
    → 0 < w1
    → 0 < w2
    → w1 + w2 < 2 ^ 64
    → c1 * w1 + c2 * w2 < 2 ^ 64
    → (min c1 c2 ≤ weighted c1 c2 w1 w2) × (weighted c1 c2 w1 w2 ≤ max c1 c2)
unfolding weighted
weighted_between c1 c2 w1 w2 p1 p2 hw h =
    let low₁ = mul-le-mul_right {m = min c1 c2} {n = c1} w1 (omega arith) in
    let low₂ = mul-le-mul_right {m = min c1 c2} {n = c2} w2 (omega arith) in
    let high₁ = mul-le-mul_right {m = c1} {n = max c1 c2} w1 (omega arith) in
    let high₂ = mul-le-mul_right {m = c2} {n = max c1 c2} w2 (omega arith) in
    let total = c1 * w1 + c2 * w2 in
    let plain : weighted c1 c2 w1 w2 ≡ total / (w1 + w2) =
      ap₂ (λ (x y : ℕ). x / y) (omega arith) (omega arith) in
    let below : min c1 c2 ≤ total / (w1 + w2) =
      (le-div_iff_mul-le {k = w1 + w2} (omega arith)).1 (omega arith) in
    let above : total / (w1 + w2) < max c1 c2 + 1 =
      (div-lt_iff_lt-mul {k = w1 + w2} (omega arith)).1 (omega arith) in
    (omega arith, omega arith)

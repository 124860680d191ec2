-- ===== src/Base/Pow.antt =====
-- Powers of two, and division of a number by a product.
use Prim.Native.Nat.{ℕ, zero, suc, ◌+◌, ◌*◌, ◌/◌, ◌%◌, ◌^◌, ◌<◌}
use mathlib.Core.Path.{◌≡◌, ap, ◌∙◌}
use native.Mathlib.Nat.{pow-suc, one-le-pow, mul_assoc, add-suc, add-zero, mod-lt, mod-eq_of_lt}
use native.Mathlib.Nat.{div-add-mod', div-eq_of_lt, mul-add-div_right, mul-add-mod_self_right}
use native.Mathlib.Omega.{arith}

pub pow_add : (k m : ℕ) → 2 ^ (k + m) ≡ 2 ^ k * 2 ^ m
pow_add k zero = omega (arith, ap (λ (t : ℕ). 2 ^ t) (add-zero k))
pow_add k (suc m) =
    rw (add-suc k m, pow-suc 2 (k + m), pow-suc 2 m, pow_add k m) (mul_assoc (2 ^ k) (2 ^ m) 2)

pub pow-pos : (k : ℕ) → 0 < 2 ^ k
pow-pos k = one-le-pow k 2 (omega arith)

-- A number in base `b`: its last digit and the rest.
pub digit-div : (q r b : ℕ) → r < b → (q * b + r) / b ≡ q
digit-div q r b h = mul-add-div_right (omega arith) q r ∙ omega (arith, div-eq_of_lt h)

pub digit-mod : (q r b : ℕ) → r < b → (q * b + r) % b ≡ r
digit-mod q r b h = mul-add-mod_self_right q b r ∙ mod-eq_of_lt h

pub digits-lt : (t s a b : ℕ) → t < b → s < a → t * a + s < a * b
digits-lt t s a b ht hs = grind arith

-- Dividing below a product of bases drops the low digit.
pub mod-mul-div : (x a b : ℕ) → 0 < a → 0 < b → x % (a * b) / a ≡ x / a % b
mod-mul-div x a b ha hb =
    let small = digits-lt (x / a % b) (x % a) a b (mod-lt _ hb) (mod-lt _ ha) in
    let split : x ≡ x / a / b * (a * b) + (x / a % b * a + x % a) =
      omega (arith, div-add-mod' x a, ap (λ (t : ℕ). t * a) (div-add-mod' (x / a) b)) in
    ap (λ (t : ℕ). t % (a * b) / a) split
    ∙ ap (λ (t : ℕ). t / a) (digit-mod (x / a / b) (x / a % b * a + x % a) (a * b) small)
    ∙ digit-div (x / a % b) (x % a) a (mod-lt _ ha)

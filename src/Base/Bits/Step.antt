-- ===== src/Base/Bits/Step.antt =====
-- The bitwise operations by their lowest digit. The native operations stand for `bitwise`, a
-- recursion on binary digits with fuel, which is dropped here.
use Prim.Native.Nat.{ℕ, zero, suc, ◌+◌, ◌*◌, ◌/◌, ◌%◌, ◌≤◌, ◌<◌, bit_and, bit_or, bit_xor, differ}
use Prim.Native.Nat.{min, max, digits, bitwise, bit_and-bitwise, bit_or-bitwise, bit_xor-bitwise}
use mathlib.Core.Path.{◌≡◌, refl}
use native.Mathlib.Nat.{le_refl}
use native.Mathlib.Omega.{arith}

module _ (rest : ℕ → ℕ) (digit : ℕ → ℕ → ℕ) where
  -- Fuel of at least the first number is enough, so two such amounts agree.
  enough_fuel :
      (x y fuel spare : ℕ)
      → x ≤ fuel
      → x ≤ spare
      → digits rest digit fuel x y ≡ digits rest digit spare x y
  enough_fuel zero y zero zero hf hs = refl
  enough_fuel zero y zero (suc spare) hf hs = refl
  enough_fuel zero y (suc fuel) zero hf hs = refl
  enough_fuel zero y (suc fuel) (suc spare) hf hs = refl
  enough_fuel (suc x) y zero spare hf hs = absurd (omega arith)
  enough_fuel (suc x) y (suc fuel) zero hf hs = absurd (omega arith)
  enough_fuel (suc x) y (suc fuel) (suc spare) hf hs =
      rw (enough_fuel (suc x / 2) (y / 2) fuel spare (omega arith) (omega arith))

  lowest :
      (x y : ℕ)
      → bitwise rest digit (suc x) y
        ≡ bitwise rest digit (suc x / 2) (y / 2) * 2 + digit (suc x % 2) (y % 2)
  lowest x y = omega (arith, enough_fuel half (y / 2) x half (omega arith) (le_refl half))
    where
      half : ℕ
      half = suc x / 2

pub bit_and_step : (x y : ℕ) → bit_and x y ≡ bit_and (x / 2) (y / 2) * 2 + min (x % 2) (y % 2)
bit_and_step (suc x) y = simp bit_and-bitwise (lowest (λ _. zero) min x y)
bit_and_step zero y = simp bit_and-bitwise (omega arith)

pub bit_or_step : (x y : ℕ) → bit_or x y ≡ bit_or (x / 2) (y / 2) * 2 + max (x % 2) (y % 2)
bit_or_step (suc x) y = simp bit_or-bitwise (lowest (λ left. left) max x y)
bit_or_step zero y = simp bit_or-bitwise (omega arith)

differ-parity : (x y : ℕ) → x < 2 → y < 2 → differ x y ≡ (x + y) % 2
differ-parity zero y hx hy = omega arith
differ-parity (suc zero) zero hx hy = refl
differ-parity (suc zero) (suc zero) hx hy = refl
differ-parity (suc zero) (suc (suc y)) hx hy = absurd (omega arith)
differ-parity (suc (suc x)) y hx hy = absurd (omega arith)

bit_xor_lowest : (x y : ℕ) → bit_xor x y ≡ bit_xor (x / 2) (y / 2) * 2 + differ (x % 2) (y % 2)
bit_xor_lowest (suc x) y = simp bit_xor-bitwise (lowest (λ left. left) differ x y)
bit_xor_lowest zero y = simp bit_xor-bitwise (omega arith)

pub bit_xor_step : (x y : ℕ) → bit_xor x y ≡ bit_xor (x / 2) (y / 2) * 2 + (x % 2 + y % 2) % 2
bit_xor_step x y =
    omega (arith, bit_xor_lowest x y, differ-parity (x % 2) (y % 2) (omega arith) (omega arith))

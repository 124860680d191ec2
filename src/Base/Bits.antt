-- ===== src/Base/Bits.antt =====
-- `&` and `|` act on the low and the high digits apart; masks and disjoint fields as arithmetic.
mod Step
pub use Step.{bit_or_step, bit_and_step, bit_xor_step}
use Prim.Native.Nat.{ℕ, zero, suc, ◌+◌, ◌-◌, ◌*◌, ◌/◌, ◌%◌, ◌^◌, ◌≤◌, ◌<◌, bit_and, bit_or}
use mathlib.Core.Path.{◌≡◌, refl, sym, ap, ◌∙◌}
use mathlib.Core.WellFounded
use native.Mathlib.Nat.{pow-suc, mod-lt, div-add-mod'}
use native.Mathlib.Omega.{arith}
use arbitrage_bot_v.Base.Order.{lt_wf}
use arbitrage_bot_v.Base.Pow.{pow-pos}

-- A law of `f` by strong induction, from one halving step.
halving :
    (f : ℕ → ℕ) (r : ℕ → ℕ)
    → f 0 ≡ r 0
    → ((x : ℕ) → f (suc x / 2) ≡ r (suc x / 2) → f (suc x) ≡ r (suc x))
    → (x : ℕ) → f x ≡ r x
halving f r base step x = WellFounded.induction lt_wf x by_size
  where
    by_size : (y : ℕ) → ((k : ℕ) → k < y → f k ≡ r k) → f y ≡ r y
    by_size zero smaller = base
    by_size (suc y) smaller = step y (smaller (suc y / 2) (omega arith))

pub bit_and-zero : (x : ℕ) → bit_and x 0 ≡ 0
bit_and-zero =
    halving (λ x. bit_and x 0) (λ _. 0) refl λ x half. omega (arith, bit_and_step (suc x) 0, half)

pub bit_or-zero : (x : ℕ) → bit_or x 0 ≡ x
bit_or-zero =
    halving (λ x. bit_or x 0) (λ x. x) refl λ x half. omega (arith, bit_or_step (suc x) 0, half)

pub zero-bit_and : (x : ℕ) → bit_and 0 x ≡ 0
zero-bit_and =
    halving (λ x. bit_and 0 x) (λ _. 0) refl λ x half. omega (arith, bit_and_step 0 (suc x), half)

mul-two-pow-suc : (m k : ℕ) → m * 2 ^ suc k ≡ 2 * (m * 2 ^ k)
mul-two-pow-suc m k = omega (arith, ap (λ (power : ℕ). m * power) (pow-suc 2 k))

-- The high digits and the `k` low digits of `a & c` do not mix.
pub bit_and_split :
    (k a b c d : ℕ)
    → b < 2 ^ k
    → d < 2 ^ k
    → bit_and (a * 2 ^ k + b) (c * 2 ^ k + d) ≡ bit_and a c * 2 ^ k + bit_and b d
bit_and_split zero a b c d hb hd = ground (arith, bit_and-zero 0)
bit_and_split (suc k) a b c d hb hd = ground (
  arith,
  bit_and_step (a * 2 ^ suc k + b) (c * 2 ^ suc k + d),
  bit_and_step b d,
  mul-two-pow-suc a k,
  mul-two-pow-suc c k,
  mul-two-pow-suc (bit_and a c) k,
  bit_and_split k a (b / 2) c (d / 2) (omega arith) (omega arith),
)

pub bit_or_split :
    (k a b c d : ℕ)
    → b < 2 ^ k
    → d < 2 ^ k
    → bit_or (a * 2 ^ k + b) (c * 2 ^ k + d) ≡ bit_or a c * 2 ^ k + bit_or b d
bit_or_split zero a b c d hb hd = ground (arith, bit_or-zero 0)
bit_or_split (suc k) a b c d hb hd = ground (
  arith,
  bit_or_step (a * 2 ^ suc k + b) (c * 2 ^ suc k + d),
  bit_or_step b d,
  mul-two-pow-suc a k,
  mul-two-pow-suc c k,
  mul-two-pow-suc (bit_or a c) k,
  bit_or_split k a (b / 2) c (d / 2) (omega arith) (omega arith),
)

pub zero-bit_or : (x : ℕ) → bit_or 0 x ≡ x
zero-bit_or =
    halving (λ x. bit_or 0 x) (λ x. x) refl λ x half. omega (arith, bit_or_step 0 (suc x), half)

-- All of `k` ones keep a number of `k` bits.
pub bit_and_ones : (k a : ℕ) → a < 2 ^ k → bit_and a (2 ^ k - 1) ≡ a
bit_and_ones zero a h = ground (arith, bit_and-zero 0)
bit_and_ones (suc k) a h = omega (
  arith,
  bit_and_step a (2 ^ suc k - 1),
  pow-suc 2 k,
  pow-pos k,
  ap (λ (t : ℕ). bit_and (a / 2) t) ones-half,
  bit_and_ones k (a / 2) (omega (arith, pow-suc 2 k)),
)
  where
    ones-half : (2 ^ suc k - 1) / 2 ≡ 2 ^ k - 1
    ones-half = omega (arith, pow-suc 2 k, pow-pos k)

-- The two laws at numbers that are known to split so.
pub bit_and_parts :
    (k : ℕ) {x y : ℕ} (a b c d : ℕ)
    → x ≡ a * 2 ^ k + b
    → y ≡ c * 2 ^ k + d
    → b < 2 ^ k
    → d < 2 ^ k
    → bit_and x y ≡ bit_and a c * 2 ^ k + bit_and b d
bit_and_parts k a b c d ex ey hb hd = rw (ex, ey) (bit_and_split k a b c d hb hd)

pub bit_or_parts :
    (k : ℕ) {x y : ℕ} (a b c d : ℕ)
    → x ≡ a * 2 ^ k + b
    → y ≡ c * 2 ^ k + d
    → b < 2 ^ k
    → d < 2 ^ k
    → bit_or x y ≡ bit_or a c * 2 ^ k + bit_or b d
bit_or_parts k a b c d ex ey hb hd = rw (ex, ey) (bit_or_split k a b c d hb hd)

-- A mask of `k` low bits is the remainder by `2 ^ k`.
pub bit_and_mask : (k a : ℕ) → bit_and a (2 ^ k - 1) ≡ a % 2 ^ k
bit_and_mask k a =
    bit_and_parts k (a / 2 ^ k) (a % 2 ^ k) 0 (2 ^ k - 1) (sym (div-add-mod' a (2 ^ k)))
      (omega arith) (mod-lt a (pow-pos k)) (omega (arith, pow-pos k))
    ∙ omega (
      arith,
      ap (λ (t : ℕ). t * 2 ^ k) (bit_and-zero (a / 2 ^ k)),
      bit_and_ones k (a % 2 ^ k) (mod-lt a (pow-pos k)),
    )

-- `(q << k) | r` is a sum when `r` fits `k` bits.
pub bit_or_fields : (k q r : ℕ) → r < 2 ^ k → bit_or (q * 2 ^ k) r ≡ q * 2 ^ k + r
bit_or_fields k q r h =
    bit_or_parts k q 0 0 r (omega arith) (omega arith) (pow-pos k) h
    ∙ omega (arith, ap (λ (t : ℕ). t * 2 ^ k) (bit_or-zero q), zero-bit_or r)

pub bit_or_join : (k r q : ℕ) → r < 2 ^ k → bit_or r (q * 2 ^ k) ≡ q * 2 ^ k + r
bit_or_join k r q h =
    bit_or_parts k 0 r q 0 (omega arith) (omega arith) h (pow-pos k)
    ∙ omega (arith, ap (λ (t : ℕ). t * 2 ^ k) (zero-bit_or q), bit_or-zero r)

pub bit_or-lt : (k a b : ℕ) → a < 2 ^ k → b < 2 ^ k → bit_or a b < 2 ^ k
bit_or-lt zero a b ha hb = ground (arith, bit_or-zero 0)
bit_or-lt (suc k) a b ha hb = omega (
  arith,
  bit_or_step a b,
  pow-suc 2 k,
  bit_or-lt k (a / 2) (b / 2) (omega (arith, pow-suc 2 k)) (omega (arith, pow-suc 2 k)),
)

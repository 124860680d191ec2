-- ===== src/MoeMath/TreeMath/Words.antt =====
-- One bit of a word: how it is tested, set and cleared.
use arbitrage_bot_v.Base.{
  ℕ, zero, suc, ◌-◌, ◌*◌, ◌/◌, ◌%◌, ◌^◌, ◌≤◌, ◌<◌, ◌≡◌, refl, ap, ◌∙◌, sym, arith, bit_and, bit_or,
  ◌==◌, if◌then◌else◌, ==_ne, true,
}
use native.Mathlib.Decide.{ℕ_discrete}
use native.Mathlib.Nat.{pow-suc, pow-le-pow_right}
use arbitrage_bot_v.Base.Pow.{pow-pos}
use arbitrage_bot_v.Base.Bits.{bit_and_step, bit_and-zero, bit_and_mask, bit_or-lt, zero-bit_and}
use arbitrage_bot_v.Base.Digit.{
  digit, digit-lt, digit-bit_and, digit-bit_or, digit-pow_self, digit-pow_ne,
}
use arbitrage_bot_v.Base.Word.{shl256, not256}
use arbitrage_bot_v.MoeMath.TreeMath.{low_byte, bit_of}

pub low_byte-mod : (key : ℕ) → low_byte key ≡ key % 256
low_byte-mod key = bit_and_mask 8 key

pub bit_of-pow : (key : ℕ) → bit_of key ≡ 2 ^ (key % 256)
bit_of-pow key =
    let below : 2 ^ suc (key % 256) ≤ 2 ^ 256 =
      pow-le-pow_right {n = 2} (omega arith) {j = 256} (omega arith) in
    ap (λ (b : ℕ). shl256 1 b) (low_byte-mod key) ∙ omega (arith, pow-suc 2 (key % 256))

-- `w & (1 << b)`.
bit_and_pow : (b w : ℕ) → bit_and w (2 ^ b) ≡ digit b w * 2 ^ b
bit_and_pow zero w = ground (arith, bit_and_step w 1, bit_and-zero (w / 2))
bit_and_pow (suc b) w =
    let half : 2 ^ suc b / 2 ≡ 2 ^ b = omega (arith, pow-suc 2 b) in
    omega (
      arith,
      bit_and_step w (2 ^ suc b),
      pow-suc 2 b,
      ap (bit_and (w / 2)) half,
      bit_and_pow b (w / 2),
      ap (λ (t : ℕ). digit b (w / 2) * t) (pow-suc 2 b),
    )

digit-not : (n i x : ℕ) → i < n → x < 2 ^ n → digit i (2 ^ n - 1 - x) ≡ 1 - digit i x
digit-not zero i x low fits = absurd (omega arith)
digit-not (suc n) zero x low fits = omega (arith, pow-suc 2 n)
digit-not (suc n) (suc i) x low fits =
    ap (digit i) (omega (arith, pow-suc 2 n))
    ∙ digit-not n i (x / 2) (omega arith) (omega (arith, pow-suc 2 n))

-- Whether the bit of a key is in a word.
pub bit_test : (key w : ℕ) → (bit_and w (bit_of key) == 0) ≡ (digit (key % 256) w == 0)
bit_test key w =
    let small = digit-lt (key % 256) w in
    let one = pow-pos (key % 256) in
    let whole = ap (bit_and w) (bit_of-pow key) ∙ bit_and_pow (key % 256) w in
    elim (ℕ_discrete (digit (key % 256) w) 0) [
      | yes clear ↦
          let none_there : bit_and w (bit_of key) ≡ 0 =
            whole ∙ ap (λ (d : ℕ). d * 2 ^ (key % 256)) clear ∙ omega arith in
          rw (none_there, clear) refl
      | no set ↦
          let one_there : bit_and w (bit_of key) ≡ 2 ^ (key % 256) =
            whole ∙ ap (λ (d : ℕ). d * 2 ^ (key % 256)) {y = 1} (omega arith) ∙ omega arith in
          rw (==_ne (bit_and w (bit_of key)) 0 (omega arith), ==_ne (digit (key % 256) w) 0 set)
            refl
    ]

digit-bit_of : (i key : ℕ) → digit i (bit_of key) ≡ (if i == key % 256 then 1 else 0)
digit-bit_of i key = elim (ℕ_discrete i (key % 256)) [
  | yes here ↦
      let test : (i == key % 256) ≡ true = ground arith in
      ap (digit i) (bit_of-pow key)
      ∙ ap (λ (k : ℕ). digit i (2 ^ k)) (sym here)
      ∙ digit-pow_self i
      ∙ rw test refl
  | no away ↦
      ap (digit i) (bit_of-pow key)
      ∙ digit-pow_ne i (key % 256) away
      ∙ rw (==_ne i (key % 256) away) refl
]

pub digit-set :
    (i key w : ℕ) → digit i (bit_or w (bit_of key)) ≡ (if i == key % 256 then 1 else digit i w)
digit-set i key w = ground (arith, digit-bit_or i w (bit_of key), digit-bit_of i key, digit-lt i w)

pub digit-clear :
    (i key w : ℕ)
    → i < 256
    → digit i (bit_and w (not256 (bit_of key))) ≡ (if i == key % 256 then 0 else digit i w)
digit-clear i key w small = ground (
  arith,
  digit-bit_and i w (not256 (bit_of key)),
  digit-bit_of i key,
  digit-not 256 i (bit_of key) small (omega arith),
  digit-lt i w,
)

pub set-word : (key w : ℕ) → w < 2 ^ 256 → bit_or w (bit_of key) < 2 ^ 256
set-word key w fits = bit_or-lt 256 w (bit_of key) fits (omega arith)

bit_and-lt : (k a b : ℕ) → a < 2 ^ k → bit_and a b < 2 ^ k
bit_and-lt zero a b h =
    let nothing : a ≡ 0 = omega arith in rw nothing (omega (arith, zero-bit_and b))
bit_and-lt (suc k) a b h = omega (
  arith,
  bit_and_step a b,
  pow-suc 2 k,
  bit_and-lt k (a / 2) (b / 2) (omega (arith, pow-suc 2 k)),
)

pub clear-word : (key w : ℕ) → w < 2 ^ 256 → bit_and w (not256 (bit_of key)) < 2 ^ 256
clear-word key w fits = bit_and-lt 256 w (not256 (bit_of key)) fits

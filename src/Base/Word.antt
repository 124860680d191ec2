-- ===== src/Base/Word.antt =====
-- Machine words as native numbers: what Rust's u64, u128 and U256 operators do, wrap included.
use Prim.Native.Nat.{ℕ, ◌+◌, ◌-◌, ◌*◌, ◌/◌, ◌%◌, ◌^◌}

abbrev pub word_mod : ℕ
word_mod = 2 ^ 256

abbrev pub add256 : ℕ → ℕ → ℕ
add256 a b = (a + b) % word_mod

abbrev pub sub256 : ℕ → ℕ → ℕ
sub256 a b = (a + word_mod - b) % word_mod

abbrev pub mul256 : ℕ → ℕ → ℕ
mul256 a b = (a * b) % word_mod

-- `x << k`: the bits that leave at the top are dropped.
abbrev pub shl256 : ℕ → ℕ → ℕ
shl256 x k = (x * 2 ^ k) % word_mod

abbrev pub shr : ℕ → ℕ → ℕ
shr x k = x / 2 ^ k

-- `!x` on a word.
abbrev pub not256 : ℕ → ℕ
not256 x = word_mod - 1 - x

-- `x as u64`, and so on: the low bits.
abbrev pub u8 : ℕ → ℕ
u8 x = x % 2 ^ 8

abbrev pub u16 : ℕ → ℕ
u16 x = x % 2 ^ 16

abbrev pub u32 : ℕ → ℕ
u32 x = x % 2 ^ 32

abbrev pub u64 : ℕ → ℕ
u64 x = x % 2 ^ 64

abbrev pub u128 : ℕ → ℕ
u128 x = x % 2 ^ 128

-- The i-th limb of `as_limbs()`, 64 bits each, lowest first.
abbrev pub limb : ℕ → ℕ → ℕ
limb i x = x / 2 ^ (64 * i) % 2 ^ 64

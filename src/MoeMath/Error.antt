-- ===== src/MoeMath/Error.antt =====
-- src/amms/moe/math/error.rs, and the outcome of a fallible function of that folder.
use arbitrage_bot_v.Base.{ℕ, Bool, true, false}

pub data MoeLbtMathError : Type 0 where
  zero_value division_by_zero overflow underflow log_underflow pow_underflow : MoeLbtMathError
  value_exceeds_bits : ℕ → MoeLbtMathError
  multiplier_too_large fee_too_large protocol_share_too_large : MoeLbtMathError
  max_liquidity_per_bin_exceeded liquidity_overflow : MoeLbtMathError
  invalid_config invalid_parameter : MoeLbtMathError

-- `panic` is an aborting Rust call: a division by zero, an `unwrap` of an error.
pub data Result {ℓ} (A : Type ℓ) : Type ℓ where
  panic : Result A
  err : MoeLbtMathError → Result A
  ok : A → Result A

infixl 5 ◌>>=◌ ◌>>◌
abbrev pub ◌>>=◌ {ℓ κ} : {A : Type ℓ} {B : Type κ} → Result A → (A → Result B) → Result B
panic >>= next = panic
err e >>= next = err e
ok value >>= next = next value

abbrev pub ◌>>◌ {κ} : {B : Type κ} → Result (Unit {0}) → Result B → Result B
first >> next = first >>= λ _. next

-- `if refused { return Err(e) }`.
abbrev pub refuse : Bool → MoeLbtMathError → Result (Unit {0})
refuse true e = err e
refuse false e = ok tt

-- `.unwrap()`.
abbrev pub unwrap {ℓ} : {A : Type ℓ} → Result A → Result A
unwrap (ok a) = ok a
unwrap (err e) = panic
unwrap panic = panic

-- Of a value that is handed back.
abbrev pub Gives : {A : Type 0} → (A → Type 0) → Result A → Type 0
Gives P panic = Unit
Gives P (err e) = Unit
Gives P (ok value) = P value

pub Gives-chain :
    {A B : Type 0} (P : A → Type 0) (Q : B → Type 0) (r : Result A) (next : A → Result B)
    → Gives P r
    → ((a : A) → P a → Gives Q (next a))
    → Gives Q (r >>= next)
Gives-chain P Q panic next given later = tt
Gives-chain P Q (err e) next given later = tt
Gives-chain P Q (ok a) next given later = later a given

-- Whatever the first call gives.
pub Gives-after :
    {A B : Type 0} (Q : B → Type 0) (r : Result A) (next : A → Result B)
    → ((a : A) → Gives Q (next a))
    → Gives Q (r >>= next)
Gives-after Q panic next later = tt
Gives-after Q (err e) next later = tt
Gives-after Q (ok a) next later = later a

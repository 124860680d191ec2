-- ===== src/Base/Signed.antt =====
-- Rust's i32 and i128 as words in two's complement, with what their operators do in a release
-- build, wrap included.
use Prim.Native.Nat.{ℕ, ◌+◌, ◌-◌, ◌/◌, ◌%◌, ◌^◌, min}
use mathlib.Core.Bool.{Bool, true, false, ◌&&◌}
use mathlib.Core.Option.{Option, none, some}
use arbitrage_bot_v.Base.Tests.{ltb, leb, ◌==◌, if◌then◌else◌}

-- The place of a word in the order of the signed numbers, from the least one on.
abbrev pub rank32 : ℕ → ℕ
rank32 a = (a + 2 ^ 31) % 2 ^ 32

abbrev pub rank128 : ℕ → ℕ
rank128 a = (a + 2 ^ 127) % 2 ^ 128

abbrev pub lt_i32 : ℕ → ℕ → Bool
lt_i32 a b = ltb (rank32 a) (rank32 b)

abbrev pub le_i32 : ℕ → ℕ → Bool
le_i32 a b = leb (rank32 a) (rank32 b)

abbrev pub clamp_i32 : ℕ → ℕ → ℕ → ℕ
clamp_i32 a lower upper = if lt_i32 a lower then lower else if lt_i32 upper a then upper else a

abbrev pub neg32 : ℕ → ℕ
neg32 a = (2 ^ 32 - a) % 2 ^ 32

abbrev pub abs32 : ℕ → ℕ
abs32 a = if leb (2 ^ 31) a then 2 ^ 32 - a else a

abbrev differs : Bool → Bool → Bool
differs true b = if b then false else true
differs false b = b

-- `a / b` on i32, towards zero; a division by zero or out of range panics.
abbrev pub div_i32 : ℕ → ℕ → Option ℕ
div_i32 a b =
    if b == 0
    then none
    else if (a == 2 ^ 31) && (b == 2 ^ 32 - 1)
    then none
    else if differs (leb (2 ^ 31) a) (leb (2 ^ 31) b)
    then some (neg32 (abs32 a / abs32 b))
    else some (abs32 a / abs32 b)

abbrev pub add128 : ℕ → ℕ → ℕ
add128 a b = (a + b) % 2 ^ 128

abbrev pub sub128 : ℕ → ℕ → ℕ
sub128 a b = (a + 2 ^ 128 - b) % 2 ^ 128

abbrev pub neg128 : ℕ → ℕ
neg128 a = (2 ^ 128 - a) % 2 ^ 128

abbrev pub is_negative128 : ℕ → Bool
is_negative128 a = leb (2 ^ 127) a

-- The saturating operators, of u128 and of i128.
abbrev pub saturating_add_u128 : ℕ → ℕ → ℕ
saturating_add_u128 a b = min (a + b) (2 ^ 128 - 1)

abbrev pub saturating_sub_u128 : ℕ → ℕ → ℕ
saturating_sub_u128 a b = a - b

abbrev unrank128 : ℕ → ℕ
unrank128 k = (k + 2 ^ 127) % 2 ^ 128

abbrev pub saturating_add_i128 : ℕ → ℕ → ℕ
saturating_add_i128 a b = unrank128 (min (rank128 a + rank128 b - 2 ^ 127) (2 ^ 128 - 1))

abbrev pub saturating_sub_i128 : ℕ → ℕ → ℕ
saturating_sub_i128 a b = unrank128 (min (rank128 a + 2 ^ 127 - rank128 b) (2 ^ 128 - 1))

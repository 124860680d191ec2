-- ===== src/Base/HashMap.antt =====
-- A Rust HashMap from numbers as the function of its `get`.
use Prim.Native.Nat.{ℕ}
use mathlib.Core.Path.{◌≡◌}
use mathlib.Core.Logic.{◌≢◌}
use mathlib.Core.Option.{Option, none, some}
use native.Mathlib.Omega.{arith}
use arbitrage_bot_v.Base.Tests.{◌==◌, if◌then◌else◌}

abbrev pub HashMap {ℓ} : Type ℓ → Type ℓ
HashMap V = ℕ → Option V

module _ {ℓ} {V : Type ℓ} where
  abbrev pub insert : HashMap V → ℕ → V → HashMap V
  insert m key value k = if k == key then some value else m k

  abbrev pub remove : HashMap V → ℕ → HashMap V
  remove m key k = if k == key then none else m k

  abbrev pub unwrap_or : Option V → V → V
  unwrap_or none default = default
  unwrap_or (some value) default = value

  pub insert_self : (m : HashMap V) (key : ℕ) (value : V) → insert m key value key ≡ some value
  insert_self m key value = ground arith

  pub insert_ne : (m : HashMap V) (key k : ℕ) (value : V) → k ≢ key → insert m key value k ≡ m k
  insert_ne m key k value h = ground arith

  pub remove_self : (m : HashMap V) (key : ℕ) → remove m key key ≡ none
  remove_self m key = ground arith

  pub remove_ne : (m : HashMap V) (key k : ℕ) → k ≢ key → remove m key k ≡ m k
  remove_ne m key k h = ground arith

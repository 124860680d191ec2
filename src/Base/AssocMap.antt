-- ===== src/Base/AssocMap.antt =====
-- A Rust HashMap as an association list, with what its operations do.
use Prim.Native.Nat.{ℕ}
use mathlib.Core.Path.{◌≡◌, refl}
use mathlib.Core.Logic.{◌≢◌}
use mathlib.Core.Bool.{Bool, true, false}
use mathlib.Core.List.{List, [], ◌∷◌}
use mathlib.Core.Option.{Option, none, some}
use native.Mathlib.Omega.{arith}
use arbitrage_bot_v.Base.Tests.{◌==◌, if◌then◌else◌}

abbrev pub AssocMap {ℓ} : Type ℓ → Type ℓ
AssocMap V = List (ℕ × V)

module _ {ℓ} {V : Type ℓ} where
  abbrev pub get : AssocMap V → ℕ → Option V
  get [] k = none
  get ((key, value) ∷ m) k = if k == key then some value else get m k

  abbrev pub delete : AssocMap V → ℕ → AssocMap V
  delete [] k = []
  delete ((key, value) ∷ m) k =
      let rest = delete m k in if k == key then rest else (key, value) ∷ rest

  abbrev pub put : AssocMap V → ℕ → V → AssocMap V
  put m k value = (k, value) ∷ delete m k

  abbrev pub contains_key : AssocMap V → ℕ → Bool
  contains_key [] k = false
  contains_key ((key, value) ∷ m) k = if k == key then true else contains_key m k

  abbrev pub is_empty : AssocMap V → Bool
  is_empty [] = true
  is_empty (entry ∷ m) = false

  pub get-delete_self : (m : AssocMap V) (k : ℕ) → get (delete m k) k ≡ none
  get-delete_self [] k = refl
  get-delete_self ((key, value) ∷ m) k = ground (arith, get-delete_self m k)

  pub get-delete_ne : (m : AssocMap V) (k j : ℕ) → j ≢ k → get (delete m k) j ≡ get m j
  get-delete_ne [] k j apart = refl
  get-delete_ne ((key, value) ∷ m) k j apart = ground (arith, get-delete_ne m k j apart)

  pub get-put_self : (m : AssocMap V) (k : ℕ) (value : V) → get (put m k value) k ≡ some value
  get-put_self m k value = ground arith

  pub get-put_ne : (m : AssocMap V) (k j : ℕ) (value : V) → j ≢ k → get (put m k value) j ≡ get m j
  get-put_ne m k j value apart = ground (arith, get-delete_ne m k j apart)

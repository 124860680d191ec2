-- ===== src/MoePool/Bins/Deposits.antt =====
-- Deposits and withdrawals move the reserves of a pair as they move those of its bins.
use arbitrage_bot_v.Base.{
  ℕ, ◌+◌, ◌-◌, ◌^◌, ◌≤◌, ◌<◌, inl, inr, arith, Bool, true, false, ◌||◌, List, [], ◌∷◌, Bool-cases,
  ltb,
}
use arbitrage_bot_v.Base.AssocMap.{get}
use arbitrage_bot_v.Base.Outcome.{Holds}
use arbitrage_bot_v.MoePool.{MoeLbPair, max_reasonable_reserve}
use arbitrage_bot_v.MoePool.Bins.{bin_or_default, event_amounts, update_bin, update_bins}
use arbitrage_bot_v.MoePool.Bins.Sums.{
  IsSum, total-delete, total-stored_bin, stored_bin-IsOnce, delete-IsOnce, lacks-delete_self,
}

-- A deposit that no reserve is too small to hold, or a withdrawal that the bin can pay.
abbrev pub Fits : Bool → ℕ → ℕ → MoeLbPair → Type 0
Fits true id amount p =
    (p.reserve_x + (event_amounts amount).0 < 2 ^ 128)
    × (p.reserve_y + (event_amounts amount).1 < 2 ^ 128)
Fits false id amount p =
    ((event_amounts amount).0 ≤ (bin_or_default (get p.bins id)).reserve_x)
    × ((event_amounts amount).1 ≤ (bin_or_default (get p.bins id)).reserve_y)

-- Each entry fits in its turn.
abbrev pub AllFit : Bool → List ℕ → List ℕ → MoeLbPair → Type 0
AllFit is_deposit [] amounts p = Unit
AllFit is_deposit (id ∷ ids) [] p = Unit
AllFit is_deposit (id ∷ ids) (amount ∷ amounts) p =
    Fits is_deposit id amount p × AllFit is_deposit ids amounts (update_bin is_deposit id amount p)

update_bin-IsSum :
    (is_deposit : Bool) (id amount : ℕ) (p : MoeLbPair)
    → Fits is_deposit id amount p
    → IsSum p
    → IsSum (update_bin is_deposit id amount p)
unfolding update_bin
update_bin-IsSum true id amount p fits (once, x_sum, y_sum) =
    let (x, y) = event_amounts amount in
    let x_part = total-delete true p.bins id once in
    let y_part = total-delete false p.bins id once in
    elim (Bool-cases (ltb max_reasonable_reserve x || ltb max_reasonable_reserve y)) [
      | inl beyond ↦ rw beyond (once, x_sum, y_sum)
      | inr within ↦ rw within (
        (lacks-delete_self p.bins id, delete-IsOnce p.bins id once),
        omega (arith, fits, x_sum, x_part),
        omega (arith, fits, y_sum, y_part),
      )
    ]
update_bin-IsSum false id amount p fits (once, x_sum, y_sum) =
    let (x, y) = event_amounts amount in
    let bin = bin_or_default (get p.bins id) in
    let (of_x, of_y) = total-stored_bin p.bins id (bin.reserve_x - x) (bin.reserve_y - y) once in
    elim (Bool-cases (ltb max_reasonable_reserve x || ltb max_reasonable_reserve y)) [
      | inl beyond ↦ rw beyond (once, x_sum, y_sum)
      | inr within ↦ rw within (
        stored_bin-IsOnce p.bins id (bin.reserve_x - x, bin.reserve_y - y) once,
        omega (arith, fits, x_sum, of_x),
        omega (arith, fits, y_sum, of_y),
      )
    ]

pub update_bins-IsSum :
    (is_deposit : Bool) (ids amounts : List ℕ) (p : MoeLbPair)
    → AllFit is_deposit ids amounts p
    → IsSum p
    → Holds IsSum (update_bins is_deposit ids amounts p)
unfolding update_bins
update_bins-IsSum is_deposit [] amounts p fits sums = sums
update_bins-IsSum is_deposit (id ∷ ids) [] p fits sums = sums
update_bins-IsSum is_deposit (id ∷ ids) (amount ∷ amounts) p (fits, rest) sums =
    elim (Bool-cases (ltb id (2 ^ 32))) [
      | inl small ↦ rw small (
          update_bins-IsSum is_deposit ids amounts (update_bin is_deposit id amount p) rest
            (update_bin-IsSum is_deposit id amount p fits sums))
      | inr large ↦ rw large tt
    ]

-- ===== src/StateSpace/Filters/Laws.antt =====
-- What the filters of src/state_space/filters let through.
use arbitrage_bot_v.Base.{
  ◌≡◌, refl, ap, sym, ◌∙◌, Bool, true, false, ◌&&◌, List, [], ◌∷◌, if◌then◌else◌,
}
use arbitrage_bot_v.Arbitrage.Data.{Amm}
use arbitrage_bot_v.StateSpace.Filters.{PoolFilter, keeps, filter}

filter-cons :
    (f : PoolFilter) (amm : Amm) (amms : List Amm) {kept : Bool}
    → keeps f amm ≡ kept
    → filter f (amm ∷ amms) ≡ (if kept then amm ∷ filter f amms else filter f amms)
unfolding filter
filter-cons f amm amms is = rw is refl

-- A pool under two filters.
filter-filter :
    (f g : PoolFilter) (amm : Amm) (amms : List Amm) (by_f by_g : Bool)
    → keeps f amm ≡ by_f
    → keeps g amm ≡ by_g
    → filter f (filter g (amm ∷ amms))
      ≡ (if by_f && by_g then amm ∷ filter f (filter g amms) else filter f (filter g amms))
filter-filter f g amm amms true true is_f is_g =
    ap (filter f) (filter-cons g amm amms is_g) ∙ filter-cons f amm (filter g amms) is_f
filter-filter f g amm amms false true is_f is_g =
    ap (filter f) (filter-cons g amm amms is_g) ∙ filter-cons f amm (filter g amms) is_f
filter-filter f g amm amms true false is_f is_g = ap (filter f) (filter-cons g amm amms is_g)
filter-filter f g amm amms false false is_f is_g = ap (filter f) (filter-cons g amm amms is_g)

and_comm : (a b : Bool) → (a && b) ≡ (b && a)
and_comm true true = refl
and_comm true false = refl
and_comm false true = refl
and_comm false false = refl

-- Two filters of any kind may be applied in either order.
pub filter_comm :
    (f g : PoolFilter) (amms : List Amm) → filter f (filter g amms) ≡ filter g (filter f amms)
unfolding filter
filter_comm f g [] = refl
filter_comm f g (amm ∷ amms) =
    filter-filter f g amm amms (keeps f amm) (keeps g amm) refl refl
    ∙ ap (λ rest. if keeps f amm && keeps g amm then amm ∷ rest else rest) (filter_comm f g amms)
    ∙ ap (λ kept. if kept then amm ∷ filter g (filter f amms) else filter g (filter f amms))
        (and_comm (keeps f amm) (keeps g amm))
    ∙ sym (filter-filter g f amm amms (keeps g amm) (keeps f amm) refl refl)

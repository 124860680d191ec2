-- ===== src/StateSpace/Cache/Unwinding.antt =====
-- What the cache of src/state_space/cache.rs gives back.
use arbitrage_bot_v.Base.{
  ℕ, ◌≤◌, ◌<◌, ◌≡◌, refl, sym, ap, ◌∙◌, inl, inr, false, Bool-cases, Option, some, none, List, [],
  ◌∷◌, ◌++◌, ltb, ◌==◌, ==_iff, ==_ne, if◌then◌else◌, All, All-weaken, arith,
}
use arbitrage_bot_v.StateSpace.Cache.{
  StateChange, StateChangeCache, drained, remaining, find_amm, or_insert, insert_all,
  flatten_state_changes, unwind_from, front, unwind_state_changes,
}

module _ {A : Type 0} where
  -- Latest blocks first.
  unfoldable pub IsOrdered : List (StateChange A) → Type 0
  IsOrdered [] = Unit {0}
  IsOrdered (x ∷ xs) =
      All (λ (y : StateChange A). y.block_number ≤ x.block_number) xs × IsOrdered xs

  drained-remaining :
      (block : ℕ) (xs : List (StateChange A)) → drained block xs ++ remaining block xs ≡ xs
  drained-remaining block [] = refl
  drained-remaining block (x ∷ xs) = elim (Bool-cases (ltb x.block_number block)) [
    | inl older ↦ rw older refl
    | inr newer ↦ rw newer (ap (λ rest. x ∷ rest) (drained-remaining block xs))
  ]

  drained-All :
      (block : ℕ) (xs : List (StateChange A))
      → All (λ (x : StateChange A). block ≤ x.block_number) (drained block xs)
  drained-All block [] = tt
  drained-All block (x ∷ xs) = elim (Bool-cases (ltb x.block_number block)) [
    | inl older ↦ rw older tt
    | inr newer ↦ rw newer (ground arith, drained-All block xs)
  ]

  remaining-All :
      (block : ℕ) (xs : List (StateChange A))
      → IsOrdered xs
      → All (λ (x : StateChange A). x.block_number < block) (remaining block xs)
  unfolding IsOrdered
  remaining-All block [] ordered = tt
  remaining-All block (x ∷ xs) (top, ordered) = elim (Bool-cases (ltb x.block_number block)) [
    | inl older ↦
        rw older (ground arith, All-weaken (λ (y : StateChange A) le. ground arith) xs top)
    | inr newer ↦ rw newer (remaining-All block xs ordered)
  ]

  module _ (address : A → ℕ) where
    abbrev pub or_else : Option A → Option A → Option A
    or_else (some amm) other = some amm
    or_else none other = other

    -- The state of a pool in the oldest of the changes that has one.
    unfoldable pub oldest_state : ℕ → List (StateChange A) → Option A
    oldest_state key [] = none
    oldest_state key (x ∷ xs) = or_else (oldest_state key xs) (find_amm address key x.state_change)

    -- No address stands twice.
    unfoldable pub IsUnique : List A → Type 0
    IsUnique [] = Unit {0}
    IsUnique (amm ∷ amms) = (find_amm address (address amm) amms ≡ none) × IsUnique amms

    pub or_else_assoc : (a b c : Option A) → or_else (or_else a b) c ≡ or_else a (or_else b c)
    or_else_assoc none b c = refl
    or_else_assoc (some x) b c = refl

    pub or_else-none : (a : Option A) → or_else a none ≡ a
    or_else-none none = refl
    or_else-none (some x) = refl

    abbrev pub only : ℕ → A → Option A
    only key amm = if address amm == key then some amm else none

    find-cons :
        (key : ℕ) (amm : A) (amms : List A)
        → find_amm address key (amm ∷ amms) ≡ or_else (only key amm) (find_amm address key amms)
    find-cons key amm amms = elim (Bool-cases (address amm == key)) [
      | inl same ↦ rw same refl
      | inr other ↦ rw other refl
    ]

    find-append :
        (key : ℕ) (amms : List A) (amm : A)
        → find_amm address key (amms ++ amm ∷ [])
          ≡ or_else (find_amm address key amms) (only key amm)
    find-append key [] amm = refl
    find-append key (x ∷ amms) amm = elim (Bool-cases (address x == key)) [
      | inl same ↦ rw same refl
      | inr other ↦ rw other (find-append key amms amm)
    ]

    pub find-or_insert :
        (key : ℕ) (amm : A) (amms : List A) (present : Option A)
        → find_amm address (address amm) amms ≡ present
        → find_amm address key (or_insert address amm amms present)
          ≡ or_else (find_amm address key amms) (only key amm)
    find-or_insert key amm amms none is = find-append key amms amm
    find-or_insert key amm amms (some old) is = elim (Bool-cases (address amm == key)) [
      | inl same ↦
          let found : find_amm address key amms ≡ some old =
            ap (λ k. find_amm address k amms) (sym ((==_iff (address amm) key).0 same)) ∙ is in
          rw found refl
      | inr other ↦ rw other (sym (or_else-none (find_amm address key amms)))
    ]

    find-insert_all :
        (key : ℕ) (changed amms : List A)
        → find_amm address key (insert_all address changed amms)
          ≡ or_else (find_amm address key amms) (find_amm address key changed)
    unfolding insert_all
    find-insert_all key [] amms = sym (or_else-none (find_amm address key amms))
    find-insert_all key (amm ∷ changed) amms =
        find-insert_all key changed
          (or_insert address amm amms (find_amm address (address amm) amms))
        ∙ ap (λ a. or_else a (find_amm address key changed)) (find-or_insert key amm amms _ refl)
        ∙ or_else_assoc (find_amm address key amms) (only key amm) (find_amm address key changed)
        ∙ ap (or_else (find_amm address key amms)) (sym (find-cons key amm changed))

    pub find-flatten_state_changes :
        (key : ℕ) (xs : List (StateChange A))
        → find_amm address key (flatten_state_changes address xs) ≡ oldest_state key xs
    unfolding flatten_state_changes oldest_state
    find-flatten_state_changes key [] = refl
    find-flatten_state_changes key (x ∷ xs) =
        find-insert_all key x.state_change (flatten_state_changes address xs)
        ∙ ap (λ a. or_else a (find_amm address key x.state_change))
            (find-flatten_state_changes key xs)

    append-IsUnique :
        (amms : List A) (amm : A)
        → IsUnique amms
        → find_amm address (address amm) amms ≡ none
        → IsUnique (amms ++ amm ∷ [])
    unfolding IsUnique
    append-IsUnique [] amm unique absent = (refl, tt)
    append-IsUnique (x ∷ amms) amm (first, unique) absent =
        elim (Bool-cases (address x == address amm)) [
          | inl same ↦ absurd (ground arith)
          | inr other ↦ (
            find-append (address x) amms amm
                ∙ rw first (rw (==_ne (address amm) (address x) (ground arith)) refl),
            append-IsUnique amms amm unique (ground arith),
          )
        ]

    or_insert-IsUnique :
        (amm : A) (amms : List A) (present : Option A)
        → find_amm address (address amm) amms ≡ present
        → IsUnique amms
        → IsUnique (or_insert address amm amms present)
    or_insert-IsUnique amm amms none absent unique = append-IsUnique amms amm unique absent
    or_insert-IsUnique amm amms (some old) is unique = unique

    insert_all-IsUnique :
        (changed amms : List A) → IsUnique amms → IsUnique (insert_all address changed amms)
    unfolding insert_all
    insert_all-IsUnique [] amms unique = unique
    insert_all-IsUnique (amm ∷ changed) amms unique =
        insert_all-IsUnique changed _ (or_insert-IsUnique amm amms _ refl unique)

    pub flatten-IsUnique : (xs : List (StateChange A)) → IsUnique (flatten_state_changes address xs)
    unfolding flatten_state_changes IsUnique
    flatten-IsUnique [] = tt
    flatten-IsUnique (x ∷ xs) =
        insert_all-IsUnique x.state_change (flatten_state_changes address xs) (flatten-IsUnique xs)

    pub unwind_from_lem :
        (block oldest : ℕ) (xs : List (StateChange A))
        → unwind_from address block
            (record { oldest_block = oldest; cache = xs })
            (front address xs)
          ≡ (
            record { oldest_block = oldest; cache = remaining block xs },
            flatten_state_changes address (drained block xs),
          )
    unfolding flatten_state_changes
    unwind_from_lem block oldest [] = refl
    unwind_from_lem block oldest (x ∷ xs) = elim (Bool-cases (ltb x.block_number block)) [
      | inl older ↦ rw older refl
      | inr newer ↦ rw newer refl
    ]

    -- On a cache with its latest blocks first, unwinding to a block that the cache reaches back to
    -- splits off the changes of that block and later ones, leaves those of earlier blocks, and
    -- gives for each address of the changes split off, once, the state in the oldest of them.
    pub unwind_state_changes_lem :
        (block : ℕ) (c : StateChangeCache A)
        → IsOrdered c.cache
        → c.oldest_block ≤ block
        → (newer : List (StateChange A)) × (older : List (StateChange A)) × (amms : List A)
          × (unwind_state_changes address block c ≡ some (record c { cache = older }, amms))
          × (newer ++ older ≡ c.cache)
          × All (λ (x : StateChange A). block ≤ x.block_number) newer
          × All (λ (x : StateChange A). x.block_number < block) older
          × ((key : ℕ) → find_amm address key amms ≡ oldest_state key newer)
          × IsUnique amms
    unfolding unwind_state_changes
    unwind_state_changes_lem block c ordered reaches = (
      drained block c.cache,
      remaining block c.cache,
      flatten_state_changes address (drained block c.cache),
      unwinds,
      drained-remaining block c.cache,
      drained-All block c.cache,
      remaining-All block c.cache ordered,
      λ key. find-flatten_state_changes key (drained block c.cache),
      flatten-IsUnique (drained block c.cache),
    )
      where
        reached : ltb block c.oldest_block ≡ false
        reached = ground arith

        unwinds :
            unwind_state_changes address block c
            ≡ some (
              record c { cache = remaining block c.cache },
              flatten_state_changes address (drained block c.cache),
            )
        unwinds = rw reached (ap some (unwind_from_lem block c.oldest_block c.cache))

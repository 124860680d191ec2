-- ===== src/StateSpace/Cache.antt =====
-- src/state_space/cache.rs, for any type of pools with an address. The deque is a list, its front
-- first; the values of the HashMap of `flatten_state_changes` stand in the order of insertion.
pub mod Unwinding
pub mod Pushing
use arbitrage_bot_v.Base.{
  ℕ, zero, suc, Bool, true, false, Option, some, none, List, [], ◌∷◌, ◌++◌, ltb, ◌==◌,
  if◌then◌else◌, length,
}

pub record StateChange (A : Type 0) : Type 0 where
  pub state_change : List A
  pub block_number : ℕ

pub record StateChangeCache (A : Type 0) : Type 0 where
  pub oldest_block : ℕ
  pub cache : List (StateChange A)

module _ {A : Type 0} where
  abbrev pub new : StateChangeCache A
  new = record { oldest_block = 0; cache = [] }

  abbrev pub is_empty : StateChangeCache A → Bool
  is_empty c = length c.cache == 0

  abbrev pub pop_back : List (StateChange A) → List (StateChange A)
  pop_back [] = []
  pop_back (x ∷ []) = []
  pop_back (x ∷ y ∷ xs) = x ∷ pop_back (y ∷ xs)

  abbrev pub back : List (StateChange A) → Option (StateChange A)
  back [] = none
  back (x ∷ []) = some x
  back (x ∷ y ∷ xs) = back (y ∷ xs)

  -- A full cache after its oldest change was dropped; `none` where nothing is left to read.
  abbrev pub pushed :
      StateChange A → List (StateChange A) → Option (StateChange A) → Option (StateChangeCache A)
  pushed change rest none = none
  pushed change rest (some oldest) =
      some (record { oldest_block = oldest.block_number; cache = change ∷ rest })

  -- `none` is a panic, which a capacity of one or none meets.
  unfoldable pub push : (cap : ℕ) → StateChange A → StateChangeCache A → Option (StateChangeCache A)
  push cap change c =
      if length c.cache == cap
      then pushed change (pop_back c.cache) (back (pop_back c.cache))
      else some (record c { cache = change ∷ c.cache })

  -- The changes before the first one of an earlier block, and those from it on.
  abbrev pub drained : ℕ → List (StateChange A) → List (StateChange A)
  drained block_to_unwind [] = []
  drained block_to_unwind (x ∷ xs) =
      if ltb x.block_number block_to_unwind then [] else x ∷ drained block_to_unwind xs

  abbrev pub remaining : ℕ → List (StateChange A) → List (StateChange A)
  remaining block_to_unwind [] = []
  remaining block_to_unwind (x ∷ xs) =
      if ltb x.block_number block_to_unwind then x ∷ xs else remaining block_to_unwind xs

  module _ (address : A → ℕ) where
    abbrev pub find_amm : ℕ → List A → Option A
    find_amm key [] = none
    find_amm key (amm ∷ amms) = if address amm == key then some amm else find_amm key amms

    abbrev pub or_insert : A → List A → Option A → List A
    or_insert amm amms (some present) = amms
    or_insert amm amms none = amms ++ amm ∷ []

    -- `amms.entry(amm.address()).or_insert(amm)` for each pool.
    unfoldable pub insert_all : List A → List A → List A
    insert_all [] amms = amms
    insert_all (amm ∷ changed) amms =
        insert_all changed (or_insert amm amms (find_amm (address amm) amms))

    -- The fold over the reversed changes, so from the last one of the list on.
    unfoldable pub flatten_state_changes : List (StateChange A) → List A
    flatten_state_changes [] = []
    flatten_state_changes (x ∷ xs) = insert_all x.state_change (flatten_state_changes xs)

    -- From the front of a cache that holds the block, or nothing to unwind.
    abbrev pub unwind_from :
        ℕ → StateChangeCache A → Option (StateChange A) → StateChangeCache A × List A
    unwind_from block_to_unwind c none = (c, [])
    unwind_from block_to_unwind c (some latest) =
        if ltb latest.block_number block_to_unwind then (c, []) else (
          record c { cache = remaining block_to_unwind c.cache },
          flatten_state_changes (drained block_to_unwind c.cache),
        )

    abbrev pub front : List (StateChange A) → Option (StateChange A)
    front [] = none
    front (x ∷ xs) = some x

    -- `none` is the panic on a block older than the cache.
    unfoldable pub unwind_state_changes :
        ℕ → StateChangeCache A → Option (StateChangeCache A × List A)
    unwind_state_changes block_to_unwind c =
        if ltb block_to_unwind c.oldest_block
        then none
        else some (unwind_from block_to_unwind c (front c.cache))

-- ===== src/StateSpace/Cache/Pushing.antt =====
-- A cache of src/state_space/cache.rs stays in order, within its capacity and its oldest block.
use arbitrage_bot_v.Base.{
  ℕ, suc, ◌≤◌, ◌≡◌, refl, inl, inr, Bool-cases, some, List, [], ◌∷◌, ◌==◌, ==_iff, if◌then◌else◌,
  length, All, arith,
}
use arbitrage_bot_v.StateSpace.Cache.{StateChange, StateChangeCache, push, pop_back, back}
use arbitrage_bot_v.StateSpace.Cache.Unwinding.{IsOrdered}

module _ {A : Type 0} where
  -- The latest blocks stand first, there are at most `cap` changes, and none is of a block before
  -- the oldest one.
  unfoldable pub IsCache : ℕ → StateChangeCache A → Type 0
  IsCache cap c =
      IsOrdered c.cache
      × (length c.cache ≤ cap)
      × All (λ (x : StateChange A). c.oldest_block ≤ x.block_number) c.cache

  pub pop_back-All :
      (P : StateChange A → Type 0) (xs : List (StateChange A)) → All P xs → All P (pop_back xs)
  pop_back-All P [] all = tt
  pop_back-All P (x ∷ []) all = tt
  pop_back-All P (x ∷ y ∷ xs) (p, all) = (p, pop_back-All P (y ∷ xs) all)

  pop_back-IsOrdered : (xs : List (StateChange A)) → IsOrdered xs → IsOrdered (pop_back xs)
  unfolding IsOrdered
  pop_back-IsOrdered [] ordered = tt
  pop_back-IsOrdered (x ∷ []) ordered = tt
  pop_back-IsOrdered (x ∷ y ∷ xs) (top, ordered) =
      (pop_back-All _ (y ∷ xs) top, pop_back-IsOrdered (y ∷ xs) ordered)

  length-pop_back :
      (x : StateChange A) (xs : List (StateChange A))
      → suc (length (pop_back (x ∷ xs))) ≡ length (x ∷ xs)
  length-pop_back x [] = refl
  length-pop_back x (y ∷ xs) = omega (arith, length-pop_back y xs)

  -- The last of an ordered list is the oldest, and there is one.
  back-lem :
      (x : StateChange A) (xs : List (StateChange A))
      → IsOrdered (x ∷ xs)
      → (oldest : StateChange A) × (back (x ∷ xs) ≡ some oldest)
        × (oldest.block_number ≤ x.block_number)
        × All (λ (y : StateChange A). oldest.block_number ≤ y.block_number) (x ∷ xs)
  unfolding IsOrdered
  back-lem x [] ordered = (x, refl, omega arith, (omega arith, tt))
  back-lem x (y ∷ xs) ((low, top), ordered) =
      let (oldest, is, below, all) = back-lem y xs ordered in
      (oldest, is, omega arith, (omega arith, all))

  -- A list of at least two changes without its last one.
  popped-lem :
      (xs : List (StateChange A))
      → 2 ≤ length xs
      → IsOrdered xs
      → (oldest : StateChange A) × (back (pop_back xs) ≡ some oldest)
        × All (λ (y : StateChange A). oldest.block_number ≤ y.block_number) (pop_back xs)
        × (suc (length (pop_back xs)) ≡ length xs)
        × ((top : ℕ)
            → All (λ (y : StateChange A). y.block_number ≤ top) xs
            → oldest.block_number ≤ top)
  popped-lem [] two ordered = absurd (omega arith)
  popped-lem (x ∷ []) two ordered = absurd (omega arith)
  popped-lem (x ∷ y ∷ xs) two ordered =
      let (oldest, is, below, all) =
        back-lem x (pop_back (y ∷ xs)) (pop_back-IsOrdered (x ∷ y ∷ xs) ordered) in
      (oldest, is, all, length-pop_back x (y ∷ xs), λ top tops. omega (arith, tops.0))

  -- A change of a block no earlier than those of the cache is pushed without a panic to the front
  -- of a cache of capacity two or more, which stays in order and within its capacity and its oldest
  -- block.
  pub push-IsCache :
      (cap : ℕ) (change : StateChange A) (c : StateChangeCache A)
      → 2 ≤ cap
      → c.oldest_block ≤ change.block_number
      → All (λ (x : StateChange A). x.block_number ≤ change.block_number) c.cache
      → IsCache cap c
      → (c' : StateChangeCache A) × (rest : List (StateChange A)) × (push cap change c ≡ some c')
        × (c'.cache ≡ change ∷ rest)
        × (rest ≡ (if length c.cache == cap then pop_back c.cache else c.cache))
        × IsCache cap c'
  unfolding push IsCache IsOrdered
  push-IsCache cap change c two reaches latest (ordered, few, above) =
      elim (Bool-cases (length c.cache == cap)) [
        | inl full ↦
            let count = (==_iff (length c.cache) cap).0 full in
            let (oldest, is, all, shorter, below) = popped-lem c.cache (omega arith) ordered in
            (
              record { oldest_block = oldest.block_number; cache = change ∷ pop_back c.cache },
              pop_back c.cache,
              rw full (rw is refl),
              refl,
              rw full refl,
              (
                (pop_back-All _ c.cache latest, pop_back-IsOrdered c.cache ordered),
                omega arith,
                (below change.block_number latest, all),
              ),
            )
        | inr room ↦ (
          record c { cache = change ∷ c.cache },
          c.cache,
          rw room refl,
          refl,
          rw room refl,
          ((latest, ordered), ground arith, (reaches, above)),
        )
      ]

-- ===== src/StateSpace/Sync/Restoring.antt =====
-- What unwinding gives back for a block that `sync` of src/state_space/mod.rs has handled.
use arbitrage_bot_v.Base.{
  ℕ, ◌≤◌, ◌<◌, ◌≡◌, refl, sym, ap, subst, ◌∙◌, inl, inr, Bool, Bool-cases, true, false, Option,
  some, none, List, [], ◌∷◌, ltb, ◌==◌, ==_iff, lt→ltb, if◌then◌else◌, length, All, All-weaken,
  arith,
}
use arbitrage_bot_v.Base.Outcome.{Outcome, done}
use arbitrage_bot_v.StateSpace.Cache.{
  pop_back, StateChange, StateChangeCache, push, find_amm, drained, remaining,
  flatten_state_changes, unwind_state_changes,
}
use arbitrage_bot_v.StateSpace.Cache.Unwinding.{
  IsUnique, oldest_state, or_else, find-flatten_state_changes, flatten-IsUnique, unwind_from_lem,
}
use arbitrage_bot_v.StateSpace.Cache.Pushing.{IsCache, push-IsCache, pop_back-All}
use arbitrage_bot_v.StateSpace.Sync.{
  StateSpace, Syncing, state_of, revert, cached_with, flushed_result,
}
use arbitrage_bot_v.StateSpace.Sync.Invariant.{IsOpen}

module _ {A L : Type 0} (address : A → ℕ) (sync_amm : A → L → Outcome (Unit {0}) A) where
  state_of-revert :
      (key : ℕ) (amms : List A) (state : List (ℕ × A))
      → IsUnique address amms
      → state_of key (revert address sync_amm amms state)
        ≡ or_else address (find_amm address key amms) (state_of key state)
  unfolding revert IsUnique
  state_of-revert key [] state unique = refl
  state_of-revert key (x ∷ xs) state (first, unique) = elim (Bool-cases (address x == key)) [
    | inl same ↦
        let absent : find_amm address key xs ≡ none =
          ap (λ k. find_amm address k xs) (sym ((==_iff (address x) key).0 same)) ∙ first in
        state_of-revert key xs ((address x, x) ∷ state) unique ∙ rw absent (rw same refl)
    | inr other ↦ state_of-revert key xs ((address x, x) ∷ state) unique ∙ rw other refl
  ]

  drained-older :
      (block : ℕ) (xs : List (StateChange A))
      → All (λ (x : StateChange A). x.block_number < block) xs
      → drained block xs ≡ []
  drained-older block [] older = refl
  drained-older block (x ∷ xs) (low, older) = rw (lt→ltb x.block_number block low) refl

  -- The changes of the newest block alone are drained.
  drained-newest :
      (block : ℕ) (amms : List A) (rest : List (StateChange A))
      → All (λ (x : StateChange A). x.block_number < block) rest
      → drained block (record { state_change = amms; block_number = block } ∷ rest)
        ≡ record { state_change = amms; block_number = block } ∷ []
  drained-newest block amms rest older =
      let current : ltb block block ≡ false = ground arith in
      rw current (
        ap (λ xs. record { state_change = amms; block_number = block } ∷ xs)
          (drained-older block rest older))

  -- What unwinding a block gives back, once it is put into the state.
  pub unwinds_to :
      (block : ℕ) (c : StateChangeCache A) (state : List (ℕ × A)) (amms : List A)
      → c.oldest_block ≤ block
      → ((key : ℕ) → oldest_state address key (drained block c.cache) ≡ find_amm address key amms)
      → (unwound : StateChangeCache A) × (back : List A) × (unwind_state_changes address block c
          ≡ some (unwound, back))
        × ((key : ℕ)
            → state_of key (revert address sync_amm back state)
              ≡ or_else address (find_amm address key amms) (state_of key state))
  unfolding unwind_state_changes
  unwinds_to block c state amms reaches found =
      let reached : ltb block c.oldest_block ≡ false = ground arith in
      let back = flatten_state_changes address (drained block c.cache) in
      (
        record c { cache = remaining block c.cache },
        back,
        rw reached (ap some (unwind_from_lem address block c.oldest_block c.cache)),
        λ key.
            state_of-revert key back state (flatten-IsUnique address (drained block c.cache))
            ∙ ap (λ o. or_else address o (state_of key state))
                (find-flatten_state_changes address key (drained block c.cache) ∙ found key),
      )

  flushed_lem :
      (s : Syncing A) (pushed : Option (StateChangeCache A)) (c : StateChangeCache A)
      {space : StateSpace A} {affected : List ℕ}
      → pushed ≡ some c
      → flushed_result address sync_amm s (cached_with address sync_amm s pushed)
        ≡ (space, done affected)
      → (space.cache ≡ c) × (space.state ≡ s.space.state)
  flushed_lem s none c is runs = absurd cc
  flushed_lem s (some c') c is runs =
      (sym (ap (λ r. r.0.cache) runs) ∙ some_cache, sym (ap (λ r. r.0.state) runs))
    where
      some_cache : c' ≡ c
      some_cache = cc

  find_empty : (key : ℕ) (amms : List A) → length amms ≡ 0 → find_amm address key amms ≡ none
  find_empty key [] empty = refl
  find_empty key (x ∷ amms) empty = absurd (omega arith)

  rest-older :
      (block : ℕ) (full : Bool) (xs rest : List (StateChange A))
      → rest ≡ (if full then pop_back xs else xs)
      → All (λ (x : StateChange A). x.block_number < block) xs
      → All (λ (x : StateChange A). x.block_number < block) rest
  rest-older block true xs rest is older =
      subst (All (λ (x : StateChange A). x.block_number < block)) (sym is) (pop_back-All _ xs older)
  rest-older block false xs rest is older =
      subst (All (λ (x : StateChange A). x.block_number < block)) (sym is) older

  -- The cache ends with the change of the block, if any, and with it the state before is known.
  unfoldable pub Restores : ℕ → StateSpace A → StateSpace A → Type 0
  Restores block before space =
      (amms : List A) × (space.cache.oldest_block ≤ block)
      × ((key : ℕ)
          → oldest_state address key (drained block space.cache.cache) ≡ find_amm address key amms)
      × ((key : ℕ)
          → or_else address (find_amm address key amms) (state_of key space.state)
            ≡ state_of key before.state)

  -- Nothing was cached, so nothing is pushed.
  pub unpushed-Restores :
      (block : ℕ) (before : StateSpace A) (s : Syncing A)
      → before.cache.oldest_block ≤ block
      → All (λ (x : StateChange A). x.block_number < block) before.cache.cache
      → length s.cached_amms ≡ 0
      → IsOpen address sync_amm block before s
      → Restores block before s.space
  unfolding Restores IsOpen oldest_state
  unpushed-Restores block before s reaches older empty (in_block, cache, keyed, restores) = (
    s.cached_amms,
    subst (λ (c : StateChangeCache A). c.oldest_block ≤ block) (sym cache) reaches,
    λ key.
        ap (λ (c : StateChangeCache A). oldest_state address key (drained block c.cache)) cache
        ∙ ap (oldest_state address key) (drained-older block before.cache.cache older)
        ∙ sym (find_empty key s.cached_amms empty),
    restores,
  )

  -- The change of the block was pushed.
  pub pushed-Restores :
      (cap block : ℕ) (before : StateSpace A) (s : Syncing A)
      → 2 ≤ cap
      → IsCache cap before.cache
      → before.cache.oldest_block ≤ block
      → All (λ (x : StateChange A). x.block_number < block) before.cache.cache
      → IsOpen address sync_amm block before s
      → (c : StateChangeCache A) × (push cap
            (record { state_change = s.cached_amms; block_number = s.block_number })
            s.space.cache
          ≡ some c)
        × Restores block before (record s.space { cache = c })
  unfolding Restores IsOpen oldest_state IsCache
  pushed-Restores cap block before s two sound reaches older (in_block, cache, keyed, restores) =
      let change : StateChange A = record { state_change = s.cached_amms; block_number = block } in
      let (c, rest, pushes, is, rest_is, (_, _, above)) =
        push-IsCache cap change before.cache two reaches
          (All-weaken (λ (x : StateChange A) low. omega arith) before.cache.cache older) sound in
      let rest_older =
        rest-older block (length before.cache.cache == cap) before.cache.cache rest rest_is older in
      (
        c,
        ap (λ n. push cap (record { state_change = s.cached_amms; block_number = n }) s.space.cache)
              in_block
            ∙ ap (push cap change) cache
            ∙ pushes,
        (
          s.cached_amms,
          (subst (All (λ (x : StateChange A). c.oldest_block ≤ x.block_number)) is above).0,
          λ key.
              ap (λ xs. oldest_state address key (drained block xs)) is
              ∙ ap (oldest_state address key) (drained-newest block s.cached_amms rest rest_older),
          restores,
        ),
      )

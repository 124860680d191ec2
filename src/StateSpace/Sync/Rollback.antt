-- ===== src/StateSpace/Sync/Rollback.antt =====
-- Unwinding a block undoes what `sync` of src/state_space/mod.rs did for it.
use arbitrage_bot_v.Base.{
  ℕ, ◌≤◌, ◌<◌, ◌≡◌, refl, sym, ap, subst, ◌∙◌, Bool, true, false, Option, some, none, List, ◌∷◌,
  leb, ◌==◌, ==_iff, if◌then◌else◌, length, All, arith,
}
use arbitrage_bot_v.Base.Outcome.{Outcome, panicked, failed, done}
use arbitrage_bot_v.StateSpace.Cache.{StateChange, StateChangeCache, unwind_state_changes}
use arbitrage_bot_v.StateSpace.Cache.Pushing.{IsCache}
use arbitrage_bot_v.StateSpace.Sync.{
  Log, StateSpace, StateSpaceError, Syncing, state_of, revert, cached_with, flush, sync_logs,
  start_from, finish, flushed_result, sync, sync_from,
}
use arbitrage_bot_v.StateSpace.Sync.Invariant.{IsKeyed, KeepsAddress, IsOpen, sync_logs-IsOpen}
use arbitrage_bot_v.StateSpace.Sync.Restoring.{
  Restores, unwinds_to, unpushed-Restores, pushed-Restores,
}

module _ {A L : Type 0} (address : A → ℕ) (sync_amm : A → L → Outcome (Unit {0}) A) where
  -- What the loop and the last flush leave, by the branches of `finish`.
  finished-Restores :
      (cap block : ℕ) (before : StateSpace A) (s : Syncing A) (empty : Bool) {space : StateSpace A}
      {affected : List ℕ}
      → 2 ≤ cap
      → IsCache cap before.cache
      → before.cache.oldest_block ≤ block
      → All (λ (x : StateChange A). x.block_number < block) before.cache.cache
      → IsOpen address sync_amm block before s
      → (length s.cached_amms == 0) ≡ empty
      → (if empty
          then (s.space, done s.affected_amms)
          else flushed_result address sync_amm s (flush address sync_amm cap s))
        ≡ (space, done affected)
      → Restores address sync_amm block before space
  unfolding flush
  finished-Restores cap block before s true two sound reaches older open_ is runs =
      subst (Restores address sync_amm block before) (ap (λ r. r.0) runs) (
        unpushed-Restores address sync_amm block before s reaches older
          ((==_iff (length s.cached_amms) 0).0 is) open_)
  finished-Restores cap block before s false two sound reaches older open_ is runs =
      let (c, pushes, restores) =
        pushed-Restores address sync_amm cap block before s two sound reaches older open_ in
      let ends =
        sym (ap (λ p. flushed_result address sync_amm s (cached_with address sync_amm s p)) pushes)
        ∙ runs in
      subst (Restores address sync_amm block before) (ap (λ r. r.0) ends) restores

  finish-Restores :
      (cap block : ℕ) (before : StateSpace A) (r : Syncing A × Outcome StateSpaceError (Unit {0}))
      {space : StateSpace A} {affected : List ℕ}
      → 2 ≤ cap
      → IsCache cap before.cache
      → before.cache.oldest_block ≤ block
      → All (λ (x : StateChange A). x.block_number < block) before.cache.cache
      → ((s : Syncing A) → r ≡ (s, done tt) → IsOpen address sync_amm block before s)
      → finish address sync_amm cap r ≡ (space, done affected)
      → Restores address sync_amm block before space
  finish-Restores cap block before (s, failed e) two sound reaches older opens runs =
      absurd (cc (ap (λ r. r.1) runs))
  finish-Restores cap block before (s, panicked) two sound reaches older opens runs =
      absurd (cc (ap (λ r. r.1) runs))
  finish-Restores cap block before (s, done u) two sound reaches older opens runs =
      finished-Restores cap block before s (length s.cached_amms == 0) two sound reaches older
        (opens s refl) refl runs

  sync_from_new :
      (cap block : ℕ) (logs : List (Log L)) (space : StateSpace A) (number : Option ℕ)
      → number ≡ some block
      → space.latest_block < block
      → sync_from address sync_amm cap logs space number
        ≡ finish address sync_amm cap
            (sync_logs address sync_amm cap logs (start_from address sync_amm block space))
  sync_from_new cap block logs space none is later = absurd cc
  sync_from_new cap block logs space (some n) is later =
      let same : n ≡ block = ground arith in
      let new_block : leb n space.latest_block ≡ false = ground arith in
      rw new_block (
        ap
          (λ b.
            finish address sync_amm cap
              (sync_logs address sync_amm cap logs (start_from address sync_amm b space)))
          same)

  -- Where a batch of logs of one new block is synced without an error, on a cache of capacity two
  -- or more that holds only earlier blocks and reaches back to that one, and each pool stands under
  -- its address and keeps it, unwinding the block and reverting the pools that this gives leads
  -- back to the state before at every address.
  pub sync-rollback :
      (cap block : ℕ) (log : Log L) (logs : List (Log L)) (space : StateSpace A)
      {space' : StateSpace A} {affected : List ℕ}
      → KeepsAddress address sync_amm
      → IsKeyed address sync_amm space.state
      → 2 ≤ cap
      → IsCache cap space.cache
      → space.cache.oldest_block ≤ block
      → All (λ (x : StateChange A). x.block_number < block) space.cache.cache
      → space.latest_block < block
      → All (λ (l : Log L). l.block_number ≡ some block) (log ∷ logs)
      → sync address sync_amm cap (log ∷ logs) space ≡ (space', done affected)
      → (unwound : StateChangeCache A) × (back : List A) × (unwind_state_changes address block
            space'.cache
          ≡ some (unwound, back))
        × ((key : ℕ)
            → state_of key (revert address sync_amm back space'.state) ≡ state_of key space.state)
  unfolding sync Restores IsOpen
  sync-rollback cap block log logs space {space'} keeps keyed two sound reaches older later here
        runs =
      let begins = start_from address sync_amm block space in
      let ends =
        sym (sync_from_new cap block (log ∷ logs) space log.block_number here.0 later) ∙ runs in
      let (amms, reached, found, restores) =
        finish-Restores cap block space (sync_logs address sync_amm cap (log ∷ logs) begins) two
          sound reaches older
          (λ s is.
            sync_logs-IsOpen address sync_amm cap block space (log ∷ logs) begins keeps here
              (refl, refl, keyed, λ key. refl) is)
          ends in
      let (unwound, back, unwinds, state) =
        unwinds_to address sync_amm block space'.cache space'.state amms reached found in
      (unwound, back, unwinds, λ key. state key ∙ restores key)

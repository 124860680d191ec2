-- ===== src/StateSpace/Sync.antt =====
-- `StateSpace::sync` of src/state_space/mod.rs, for any type of pools. A pool's own sync is a
-- parameter that gives the pool after a log, fails, and then leaves it as it was, or panics; which
-- error it fails with is left out. The state is the list of its insertions, the latest first, and the set of affected addresses
-- the list of its own, in order, so an address may stand there twice. The state space that an error
-- or a panic leaves behind is part of the result.
pub mod Invariant
pub mod Restoring
pub mod Rollback
use arbitrage_bot_v.Base.{
  ℕ, Bool, true, false, Option, some, none, List, [], ◌∷◌, ◌++◌, map, ltb, leb, ◌==◌, if◌then◌else◌,
  length,
}
use arbitrage_bot_v.Base.Outcome.{Outcome, panicked, failed, done}
use arbitrage_bot_v.StateSpace.Cache.{
  StateChange, StateChangeCache, push, find_amm, or_insert, unwind_state_changes,
}

pub record Log (L : Type 0) : Type 0 where
  pub block_number : Option ℕ
  pub address : ℕ
  pub body : L

pub record StateSpace (A : Type 0) : Type 0 where
  pub state : List (ℕ × A)
  pub latest_block : ℕ
  pub cache : StateChangeCache A

pub data StateSpaceError : Type 0 where
  missing_block_number amm_error : StateSpaceError

-- The state space and the local variables of the loop.
pub record Syncing (A : Type 0) : Type 0 where
  pub space : StateSpace A
  pub block_number : ℕ
  pub cached_amms : List A
  pub affected_amms : List ℕ

module _ {A : Type 0} where
  abbrev pub state_of : ℕ → List (ℕ × A) → Option A
  state_of key [] = none
  state_of key (entry ∷ entries) = if entry.0 == key then some entry.1 else state_of key entries

  abbrev pub get : StateSpace A → ℕ → Option A
  get space address = state_of address space.state

module _ {A L : Type 0} (address : A → ℕ) (sync_amm : A → L → Outcome (Unit {0}) A) where
  -- `for amm in cached_state { self.state.insert(..) }`.
  unfoldable pub revert : List A → List (ℕ × A) → List (ℕ × A)
  revert [] state = state
  revert (amm ∷ amms) state = revert amms ((address amm, amm) ∷ state)

  -- The pools cached for a block become a change of the cache; `none` is the panic of `push`.
  abbrev pub cached_with : Syncing A → Option (StateChangeCache A) → Option (Syncing A)
  cached_with s none = none
  cached_with s (some cache) = some (record {
    space = record s.space { cache = cache };
    block_number = s.block_number;
    cached_amms = [];
    affected_amms = s.affected_amms ++ map address s.cached_amms;
  })

  unfoldable pub flush : ℕ → Syncing A → Option (Syncing A)
  flush cap s = cached_with s (
      push cap (record { state_change = s.cached_amms; block_number = s.block_number })
        s.space.cache)

  abbrev pub synced :
      Syncing A → ℕ → Outcome (Unit {0}) A → Syncing A × Outcome StateSpaceError (Unit {0})
  synced s key panicked = (s, panicked)
  synced s key (failed e) = (s, failed amm_error)
  synced s key (done amm) =
      (record s { space = record s.space { state = (key, amm) ∷ s.space.state } }, done tt)

  -- A pool of the state space is cached, unless its address is, and takes the log.
  abbrev pub touch : Syncing A → ℕ → L → Option A → Syncing A × Outcome StateSpaceError (Unit {0})
  touch s key body none = (s, done tt)
  touch s key body (some amm) =
      synced
        (record s {
          cached_amms =
              or_insert address amm s.cached_amms (find_amm address (address amm) s.cached_amms);
        })
        key (sync_amm amm body)

  abbrev pub touch_in :
      ℕ → Syncing A → Log L → Option (Syncing A) → Syncing A × Outcome StateSpaceError (Unit {0})
  touch_in block s log none = (s, panicked)
  touch_in block s log (some flushed) =
      touch (record flushed { block_number = block }) log.address log.body
        (get flushed.space log.address)

  -- One round of the loop over the logs.
  abbrev pub numbered :
      ℕ → Syncing A → Log L → Option ℕ → Syncing A × Outcome StateSpaceError (Unit {0})
  numbered cap s log none = (s, failed missing_block_number)
  numbered cap s log (some block) =
      if block == s.block_number
      then touch s log.address log.body (get s.space log.address)
      else touch_in block s log (flush cap s)

  abbrev pub and_then :
      Syncing A × Outcome StateSpaceError (Unit {0})
      → (Syncing A → Syncing A × Outcome StateSpaceError (Unit {0}))
      → Syncing A × Outcome StateSpaceError (Unit {0})
  and_then (s, done u) rest = rest s
  and_then (s, failed e) rest = (s, failed e)
  and_then (s, panicked) rest = (s, panicked)

  unfoldable pub sync_logs :
      ℕ → List (Log L) → Syncing A → Syncing A × Outcome StateSpaceError (Unit {0})
  sync_logs cap [] s = (s, done tt)
  sync_logs cap (log ∷ logs) s = and_then (numbered cap s log log.block_number) (sync_logs cap logs)

  abbrev pub flushed_result :
      Syncing A → Option (Syncing A) → StateSpace A × Outcome StateSpaceError (List ℕ)
  flushed_result s none = (s.space, panicked)
  flushed_result s (some flushed) = (flushed.space, done flushed.affected_amms)

  abbrev pub finish :
      ℕ
      → Syncing A × Outcome StateSpaceError (Unit {0})
      → StateSpace A × Outcome StateSpaceError (List ℕ)
  finish cap (s, failed e) = (s.space, failed e)
  finish cap (s, panicked) = (s.space, panicked)
  finish cap (s, done u) =
      if length s.cached_amms == 0
      then (s.space, done s.affected_amms)
      else flushed_result s (flush cap s)

  abbrev pub start_from : ℕ → StateSpace A → Syncing A
  start_from block space = record {
    space = space;
    block_number = block;
    cached_amms = [];
    affected_amms = [];
  }

  abbrev pub sync_unwound :
      ℕ
      → List (Log L)
      → ℕ
      → StateSpace A
      → Option (StateChangeCache A × List A)
      → StateSpace A × Outcome StateSpaceError (List ℕ)
  sync_unwound cap logs block space none = (space, panicked)
  sync_unwound cap logs block space (some unwound) = finish cap (
      sync_logs cap logs (
        start_from block
          (record space { state = revert unwound.1 space.state; cache = unwound.0 })))

  abbrev pub sync_from :
      ℕ → List (Log L) → StateSpace A → Option ℕ → StateSpace A × Outcome StateSpaceError (List ℕ)
  sync_from cap logs space none = (space, failed missing_block_number)
  sync_from cap logs space (some block) =
      if leb block space.latest_block
      then sync_unwound cap logs block space (unwind_state_changes address block space.cache)
      else finish cap (sync_logs cap logs (start_from block space))

  -- `sync`, which returns the addresses of the pools that were cached.
  unfoldable pub sync :
      ℕ → List (Log L) → StateSpace A → StateSpace A × Outcome StateSpaceError (List ℕ)
  sync cap [] space = (space, done [])
  sync cap (log ∷ logs) space = sync_from cap (log ∷ logs) space log.block_number

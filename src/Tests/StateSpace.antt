-- ===== src/Tests/StateSpace.antt =====
-- src/state_space at concrete values.
use arbitrage_bot_v.Base.{
  ℕ, ◌≤◌, ◌<◌, ◌≡◌, refl, some, List, [], ◌∷◌, ◌++◌, ◌==◌, if◌then◌else◌, length, All, arith,
}
use arbitrage_bot_v.StateSpace.Cache.{
  StateChange, StateChangeCache, push, pop_back, find_amm, insert_all, flatten_state_changes,
  unwind_state_changes,
}
use arbitrage_bot_v.StateSpace.Cache.Unwinding.{
  IsOrdered, IsUnique, oldest_state, unwind_state_changes_lem,
}
use arbitrage_bot_v.StateSpace.Cache.Pushing.{IsCache, push-IsCache}
use arbitrage_bot_v.Base.Outcome.{Outcome, done}
use arbitrage_bot_v.StateSpace.Sync.{Log, StateSpace, state_of, revert, flush, sync_logs, sync}
use arbitrage_bot_v.StateSpace.Sync.Invariant.{IsKeyed, KeepsAddress}
use arbitrage_bot_v.StateSpace.Sync.Rollback.{sync-rollback}

-- A pool is its address and a state.
abbrev address : ℕ × ℕ → ℕ
address pool = pool.0

abbrev at_7 : StateChange (ℕ × ℕ)
at_7 = record { state_change = (1, 70) ∷ (2, 71) ∷ []; block_number = 7 }

abbrev at_8 : StateChange (ℕ × ℕ)
at_8 = record { state_change = (1, 80) ∷ []; block_number = 8 }

abbrev at_9 : StateChange (ℕ × ℕ)
at_9 = record { state_change = (2, 90) ∷ (1, 91) ∷ []; block_number = 9 }

abbrev cached : StateChangeCache (ℕ × ℕ)
cached = record { oldest_block = 7; cache = at_9 ∷ at_8 ∷ at_7 ∷ [] }

back_to_8 :
    unwind_state_changes address 8 cached
    ≡ some (record { oldest_block = 7; cache = at_7 ∷ [] }, (1, 80) ∷ (2, 90) ∷ [])
unfolding unwind_state_changes flatten_state_changes insert_all
back_to_8 = refl

cached-IsOrdered : IsOrdered cached.cache
unfolding IsOrdered
cached-IsOrdered = ((omega arith, (omega arith, tt)), ((omega arith, tt), (tt, tt)))

unwind_state_changes_example :
    (newer : List (StateChange (ℕ × ℕ))) × (older : List (StateChange (ℕ × ℕ))) × (amms : List
      (ℕ × ℕ))
    × (unwind_state_changes address 8 cached ≡ some (record cached { cache = older }, amms))
    × (newer ++ older ≡ cached.cache)
    × All (λ (x : StateChange (ℕ × ℕ)). 8 ≤ x.block_number) newer
    × All (λ (x : StateChange (ℕ × ℕ)). x.block_number < 8) older
    × ((key : ℕ) → find_amm address key amms ≡ oldest_state address key newer)
    × IsUnique address amms
unwind_state_changes_example =
    unwind_state_changes_lem address 8 cached cached-IsOrdered (omega arith)

abbrev at_10 : StateChange (ℕ × ℕ)
at_10 = record { state_change = (3, 100) ∷ []; block_number = 10 }

cached-IsCache : IsCache 3 cached
unfolding IsCache IsOrdered
cached-IsCache = (
  ((omega arith, (omega arith, tt)), ((omega arith, tt), (tt, tt))),
  omega arith,
  (omega arith, (omega arith, (omega arith, tt))),
)

push-IsCache_example :
    (c' : StateChangeCache (ℕ × ℕ)) × (rest : List (StateChange (ℕ × ℕ))) × (push 3 at_10 cached
      ≡ some c')
    × (c'.cache ≡ at_10 ∷ rest)
    × (rest ≡ (if length cached.cache == 3 then pop_back cached.cache else cached.cache))
    × IsCache 3 c'
push-IsCache_example =
    push-IsCache 3 at_10 cached (omega arith) (omega arith)
      (omega arith, (omega arith, (omega arith, tt))) cached-IsCache

-- A log sets the state of its pool.
abbrev set_state : ℕ × ℕ → ℕ → Outcome (Unit {0}) (ℕ × ℕ)
set_state pool body = done (pool.0, body)

abbrev space : StateSpace (ℕ × ℕ)
space = record { state = (1, (1, 91)) ∷ (2, (2, 90)) ∷ []; latest_block = 9; cache = cached }

abbrev log_of : ℕ → ℕ → Log ℕ
log_of key body = record { block_number = some 10; address = key; body = body }

abbrev space_10 : StateSpace (ℕ × ℕ)
space_10 = record {
  state = (1, (1, 102)) ∷ (2, (2, 101)) ∷ (1, (1, 100)) ∷ space.state;
  latest_block = 9;
  cache = record {
    oldest_block = 8;
    cache = record { state_change = (1, 91) ∷ (2, 90) ∷ []; block_number = 10 } ∷ at_9 ∷ at_8 ∷ [];
  };
}

-- Pool 1 twice, pool 2 once, and a pool that is not in the state space.
synced_10 :
    sync address set_state 3 (log_of 1 100 ∷ log_of 2 101 ∷ log_of 7 5 ∷ log_of 1 102 ∷ []) space
    ≡ (space_10, done (1 ∷ 2 ∷ []))
unfolding sync sync_logs flush push
synced_10 = refl

space-IsKeyed : IsKeyed address set_state space.state
unfolding IsKeyed
space-IsKeyed key amm is = ground arith

set_state-KeepsAddress : KeepsAddress address set_state
unfolding KeepsAddress
set_state-KeepsAddress amm body amm' is = ground arith

sync-rollback_example :
    (unwound : StateChangeCache (ℕ × ℕ)) × (back : List (ℕ × ℕ)) × (unwind_state_changes address 10
        space_10.cache
      ≡ some (unwound, back))
    × ((key : ℕ)
        → state_of key (revert address set_state back space_10.state) ≡ state_of key space.state)
sync-rollback_example =
    sync-rollback address set_state 3 10 (log_of 1 100)
      (log_of 2 101 ∷ log_of 7 5 ∷ log_of 1 102 ∷ []) space set_state-KeepsAddress space-IsKeyed
      (omega arith) cached-IsCache (omega arith) (omega arith, (omega arith, (omega arith, tt)))
      (omega arith) (refl, (refl, (refl, (refl, tt)))) synced_10

-- ===== src/Execution/Nonce.antt =====
-- src/execution/nonce.rs. `sync_at_least` is not atomic: between its load and each of its
-- compare-exchanges other callers may act, so a call under way is a value of `Sync`.
pub mod Interleavings
use arbitrage_bot_v.Base.{
  ℕ, zero, suc, ◌+◌, ◌%◌, ◌^◌, ◌<◌, Option, some, none, List, [], ◌∷◌, ◌++◌, ltb, ◌==◌,
  if◌then◌else◌,
}

pub record NonceManager : Type 0 where
  pub next_nonce : ℕ  -- AtomicU64

abbrev new : ℕ → NonceManager
new initial_nonce = record { next_nonce = initial_nonce }

-- `fetch_add`, which wraps.
abbrev pub reserve : NonceManager → NonceManager × ℕ
reserve m = (record { next_nonce = (m.next_nonce + 1) % 2 ^ 64 }, m.next_nonce)

abbrev pub peek : NonceManager → ℕ
peek m = m.next_nonce

-- A call of `sync_at_least` at the head of its loop.
pub record Sync : Type 0 where
  pub chain_next_nonce : ℕ
  pub current : ℕ

abbrev pub load : ℕ → NonceManager → Sync
load chain_next_nonce m = record { chain_next_nonce = chain_next_nonce; current = m.next_nonce }

-- One round of the loop: the test, then the compare-exchange. `none` is the return.
unfoldable pub sync_round : Sync → NonceManager → NonceManager × Option Sync
sync_round s m =
    if ltb s.current s.chain_next_nonce
    then (if m.next_nonce == s.current
        then (record { next_nonce = s.chain_next_nonce }, none)
        else (m, some (record s { current = m.next_nonce })))
    else (m, none)

-- The loop of a call that nobody interrupts, on fuel.
sync_loop : ℕ → Sync → NonceManager → Option NonceManager
sync_loop zero s m = none
sync_loop (suc fuel) s m =
    let (m', rest) = sync_round s m in elim rest [ none ↦ some m' | some s' ↦ sync_loop fuel s' m' ]

unfoldable pub sync_at_least : ℕ → ℕ → NonceManager → Option NonceManager
unfolding sync_loop
sync_at_least fuel chain_next_nonce m = sync_loop fuel (load chain_next_nonce m) m

-- The manager, the nonces handed out (latest first), the calls under way and the chain nonces of
-- the calls that have returned.
pub record System : Type 0 where
  pub manager : NonceManager
  pub issued : List ℕ
  pub syncing : List Sync
  pub synced : List ℕ

-- A call after its round: still under way, or returned.
abbrev pub settle : Option Sync → ℕ → List Sync → List Sync → List ℕ → List Sync × List ℕ
settle none chain before after synced = (before ++ after, chain ∷ synced)
settle (some s) chain before after synced = (before ++ s ∷ after, synced)

pub data Step : System → System → Type 0 where
  reserves :
      (s : System)
      → Step s
          (record s { manager = (reserve s.manager).0; issued = (reserve s.manager).1 ∷ s.issued })
  loads :
      (s : System) (chain_next_nonce : ℕ)
      → Step s (record s { syncing = load chain_next_nonce s.manager ∷ s.syncing })
  rounds :
      (m : NonceManager) (issued : List ℕ) (before : List Sync) (call : Sync) (after : List Sync)
      (synced : List ℕ)
      → Step
          (record {
            manager = m;
            issued = issued;
            syncing = before ++ call ∷ after;
            synced = synced;
          })
          (record {
            manager = (sync_round call m).0;
            issued = issued;
            syncing = (settle (sync_round call m).1 call.chain_next_nonce before after synced).0;
            synced = (settle (sync_round call m).1 call.chain_next_nonce before after synced).1;
          })

-- A schedule of steps.
pub data Steps (s : System) : System → Type 0 where
  here : Steps s s
  next : {t u : System} → Steps s t → Step t u → Steps s u

-- No reservation of the schedule takes the last 64-bit nonce.
unfoldable pub IsUnwrapped : {s t : System} → Steps s t → Type 0
IsUnwrapped here = Unit {0}
IsUnwrapped (next r (reserves s)) = IsUnwrapped r × (s.manager.next_nonce + 1 < 2 ^ 64)
IsUnwrapped (next r (loads s chain)) = IsUnwrapped r
IsUnwrapped (next r (rounds m issued before call after synced)) = IsUnwrapped r

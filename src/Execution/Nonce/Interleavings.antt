-- ===== src/Execution/Nonce/Interleavings.antt =====
-- Reservations and synchronisations in any order, on src/execution/nonce.rs.
use arbitrage_bot_v.Base.{
  ℕ, suc, ◌+◌, ◌%◌, ◌^◌, ◌≤◌, ◌<◌, ◌≡◌, ◌⊎◌, inl, inr, Option, some, none, List, [], ◌∷◌, ◌++◌, All,
  All-weaken, All-split, All-append, max, arith,
}
use arbitrage_bot_v.Execution.Nonce.{
  NonceManager, Sync, System, Step, Steps, IsUnwrapped, sync_round, sync_at_least, sync_loop,
  settle, reserves, loads, rounds, here, next,
}

-- Strictly decreasing, and below `top`: in particular without repetition.
unfoldable pub Descends : ℕ → List ℕ → Type 0
Descends top [] = Unit {0}
Descends top (x ∷ xs) = (x < top) × Descends x xs

Descends-mono : (low high : ℕ) (xs : List ℕ) → low ≤ high → Descends low xs → Descends high xs
unfolding Descends
Descends-mono low high [] h d = tt
Descends-mono low high (x ∷ xs) h (lt, d) = (omega arith, d)

unfoldable pub IsConsistent : System → Type 0
IsConsistent s =
    Descends s.manager.next_nonce s.issued
    × All (λ (call : Sync). call.current ≤ s.manager.next_nonce) s.syncing
    × All (λ chain. chain ≤ s.manager.next_nonce) s.synced

-- A round keeps or raises the counter; it returns only with the chain's nonce reached, and a call
-- that goes on has seen a value of the counter.
sync_round_lem :
    (call : Sync) (m : NonceManager)
    → call.current ≤ m.next_nonce
    → (m.next_nonce ≤ (sync_round call m).0.next_nonce)
      × (((sync_round call m).1 ≡ none) × (call.chain_next_nonce ≤ (sync_round call m).0.next_nonce)
          ⊎ (c : Sync) × ((sync_round call m).1 ≡ some c)
            × (c.current ≤ (sync_round call m).0.next_nonce))
unfolding sync_round
sync_round_lem call m h = ground arith

module _ (m m' : NonceManager) (issued : List ℕ) (before after : List Sync) (synced : List ℕ)
    (up : m.next_nonce ≤ m'.next_nonce) where
  raise :
      (calls : List Sync)
      → All (λ (call : Sync). call.current ≤ m.next_nonce) calls
      → All (λ (call : Sync). call.current ≤ m'.next_nonce) calls
  raise calls = All-weaken (λ (call : Sync) h. omega arith) calls

  raise_synced :
      All (λ chain. chain ≤ m.next_nonce) synced → All (λ chain. chain ≤ m'.next_nonce) synced
  raise_synced = All-weaken (λ chain h. omega arith) synced

  settle-IsConsistent :
      (call : Sync) (rest : Option Sync)
      → (rest ≡ none) × (call.chain_next_nonce ≤ m'.next_nonce)
        ⊎ (c : Sync) × (rest ≡ some c) × (c.current ≤ m'.next_nonce)
      → IsConsistent (record {
        manager = m;
        issued = issued;
        syncing = before ++ call ∷ after;
        synced = synced;
      })
      → IsConsistent (record {
        manager = m';
        issued = issued;
        syncing = (settle rest call.chain_next_nonce before after synced).0;
        synced = (settle rest call.chain_next_nonce before after synced).1;
      })
  unfolding IsConsistent
  settle-IsConsistent call none how (d, calls, done) =
      let (b, (_, a)) = All-split _ before (call ∷ after) calls in
      let reached : call.chain_next_nonce ≤ m'.next_nonce = elim how [
        | inl (_, le) ↦ le
        | inr (c, e, _) ↦ cc
      ] in
      (
        Descends-mono _ _ issued up d,
        All-append _ before after (raise before b) (raise after a),
        (reached, raise_synced done),
      )
  settle-IsConsistent call (some c) how (d, calls, done) =
      let (b, (_, a)) = All-split _ before (call ∷ after) calls in
      let seen : c.current ≤ m'.next_nonce = elim how [
        | inl (e, _) ↦ cc
        | inr (c', e, le) ↦ ground (arith)
      ] in
      (
        Descends-mono _ _ issued up d,
        All-append _ before (c ∷ after) (raise before b) (seen, raise after a),
        raise_synced done,
      )

pub Step-IsConsistent :
    {s t u : System} (r : Steps s t) (st : Step t u)
    → IsUnwrapped (next r st)
    → IsConsistent t
    → IsConsistent u
unfolding IsConsistent IsUnwrapped Descends
Step-IsConsistent r (reserves s) (_, fits) (d, calls, done) =
    let up : (s.manager.next_nonce + 1) % 2 ^ 64 ≡ s.manager.next_nonce + 1 = omega arith in
    (
      (omega arith, d),
      All-weaken (λ (call : Sync) h. omega arith) s.syncing calls,
      All-weaken (λ chain h. omega arith) s.synced done,
    )
Step-IsConsistent r (loads s chain) _ (d, calls, done) = (d, (omega arith, calls), done)
Step-IsConsistent r (rounds m issued before call after synced) _ (d, calls, done) =
    let (_, (seen, _)) = All-split _ before (call ∷ after) calls in
    let (up, how) = sync_round_lem call m seen in
    settle-IsConsistent m (sync_round call m).0 issued before after synced up call
      (sync_round call m).1 how (d, calls, done)

-- As long as no reservation takes the last 64-bit nonce, every schedule of reservations and of
-- interleaved synchronisations hands out strictly increasing nonces below the counter, and the
-- counter has reached every chain nonce whose synchronisation has returned.
pub Steps-IsConsistent :
    {s t : System} (r : Steps s t) → IsUnwrapped r → IsConsistent s → IsConsistent t
unfolding IsUnwrapped
Steps-IsConsistent here _ h = h
Steps-IsConsistent (next r (reserves s)) (w', fits) h =
    Step-IsConsistent r (reserves s) (w', fits) (Steps-IsConsistent r w' h)
Steps-IsConsistent (next r (loads s chain)) w h =
    Step-IsConsistent r (loads s chain) w (Steps-IsConsistent r w h)
Steps-IsConsistent (next r (rounds m issued before call after synced)) w h =
    Step-IsConsistent r (rounds m issued before call after synced) w (Steps-IsConsistent r w h)

-- Without other callers `sync_at_least` returns, in one round of its loop, with the
-- larger of the counter and the chain's nonce.
pub sync_at_least-max :
    (fuel chain : ℕ) (m : NonceManager)
    → sync_at_least (suc fuel) chain m ≡ some (record { next_nonce = max m.next_nonce chain })
unfolding sync_at_least sync_loop sync_round
sync_at_least-max fuel chain m = ground arith

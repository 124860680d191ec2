-- ===== src/StateSpace/Sync/Invariant.antt =====
-- The loop of `sync` of src/state_space/mod.rs within one block.
use arbitrage_bot_v.Base.{
  ℕ, ◌≡◌, refl, sym, ap, subst, ◌∙◌, inl, inr, Bool-cases, true, false, Option, some, none, List,
  [], ◌∷◌, ◌==◌, ==_iff, All, arith,
}
use arbitrage_bot_v.Base.Outcome.{Outcome, panicked, failed, done}
use arbitrage_bot_v.StateSpace.Cache.{find_amm, or_insert}
use arbitrage_bot_v.StateSpace.Cache.Unwinding.{or_else, find-or_insert, or_else-none}
use arbitrage_bot_v.StateSpace.Sync.{
  Log, StateSpace, StateSpaceError, Syncing, state_of, synced, touch, numbered, and_then, sync_logs,
}

module _ {A L : Type 0} (address : A → ℕ) (sync_amm : A → L → Outcome (Unit {0}) A) where
  -- Every pool stands under its own address.
  unfoldable pub IsKeyed : List (ℕ × A) → Type 0
  IsKeyed state = (key : ℕ) (amm : A) → state_of key state ≡ some amm → address amm ≡ key

  -- A pool that takes a log keeps its address.
  unfoldable pub KeepsAddress : Type 0
  KeepsAddress =
      (amm : A) (body : L) (amm' : A) → sync_amm amm body ≡ done amm' → address amm' ≡ address amm

  -- The loop stays in the block and leaves the cache; what is cached, or else the state, is the
  -- state before the loop.
  unfoldable pub IsOpen : ℕ → StateSpace A → Syncing A → Type 0
  IsOpen block before s =
      (s.block_number ≡ block)
      × (s.space.cache ≡ before.cache)
      × IsKeyed s.space.state
      × ((key : ℕ)
          → or_else address (find_amm address key s.cached_amms) (state_of key s.space.state)
            ≡ state_of key before.state)

  insert-IsKeyed :
      (key : ℕ) (amm : A) (state : List (ℕ × A))
      → address amm ≡ key
      → IsKeyed state
      → IsKeyed ((key, amm) ∷ state)
  unfolding IsKeyed
  insert-IsKeyed key amm state own keyed k a is = elim (Bool-cases (key == k)) [
    | inl same ↦
        let it_is : amm ≡ a = ground arith in sym (ap address it_is) ∙ own ∙ (==_iff key k).0 same
    | inr other ↦ keyed k a (ground arith)
  ]

  settled :
      (found : Option A) (amm : A) (other : Option A)
      → or_else address (or_else address found (some amm)) other ≡ or_else address found (some amm)
  settled none amm other = refl
  settled (some x) amm other = refl

  -- A pool that is cached and takes a log.
  touch-IsOpen :
      (block : ℕ) (before : StateSpace A) (s : Syncing A) (key : ℕ) (amm amm' : A) (body : L)
      → KeepsAddress
      → state_of key s.space.state ≡ some amm
      → sync_amm amm body ≡ done amm'
      → IsOpen block before s
      → IsOpen block before (record s {
        cached_amms =
            or_insert address amm s.cached_amms (find_amm address (address amm) s.cached_amms);
        space = record s.space { state = (key, amm') ∷ s.space.state };
      })
  unfolding IsOpen KeepsAddress IsKeyed
  touch-IsOpen block before s key amm amm' body keeps held takes
        (in_block, cache, keyed, restores) =
      let own = keyed key amm held in
      (
        in_block,
        cache,
        insert-IsKeyed key amm' s.space.state (keeps amm body amm' takes ∙ own) keyed,
        λ k.
            ap (λ found. or_else address found (state_of k ((key, amm') ∷ s.space.state)))
              (find-or_insert address k amm s.cached_amms
                (find_amm address (address amm) s.cached_amms) refl)
            ∙ elim (Bool-cases (key == k)) [
              | inl same ↦
                  let here = own ∙ (==_iff key k).0 same in
                  let held_here : state_of k s.space.state ≡ some amm =
                    ap (λ q. state_of q s.space.state) (sym ((==_iff key k).0 same)) ∙ held in
                  let marked : (address amm == k) ≡ true = (==_iff (address amm) k).1 here in
                  rw marked (
                    settled (find_amm address k s.cached_amms) amm _
                    ∙ ap (or_else address (find_amm address k s.cached_amms)) (sym held_here)
                    ∙ restores k)
              | inr other ↦
                  let unmarked : (address amm == k) ≡ false = ground arith in
                  rw unmarked (
                    rw other (
                      ap (λ found. or_else address found (state_of k s.space.state))
                        (or_else-none address (find_amm address k s.cached_amms))
                      ∙ restores k))
            ],
      )

  took-IsOpen :
      (block : ℕ) (before : StateSpace A) (s : Syncing A) (key : ℕ) (amm : A) (body : L)
      (taken : Outcome (Unit {0}) A) {s' : Syncing A}
      → KeepsAddress
      → state_of key s.space.state ≡ some amm
      → sync_amm amm body ≡ taken
      → IsOpen block before s
      → synced address sync_amm
          (record s {
            cached_amms =
                or_insert address amm s.cached_amms (find_amm address (address amm) s.cached_amms);
          })
          key
          taken
        ≡ (s', done tt)
      → IsOpen block before s'
  took-IsOpen block before s key amm body panicked keeps is takes open_ runs =
      absurd (cc (ap (λ r. r.1) runs))
  took-IsOpen block before s key amm body (failed e) keeps is takes open_ runs =
      absurd (cc (ap (λ r. r.1) runs))
  took-IsOpen block before s key amm body (done amm') keeps is takes open_ runs =
      subst (IsOpen block before) (ap (λ r. r.0) runs)
        (touch-IsOpen block before s key amm amm' body keeps is takes open_)

  touched-IsOpen :
      (block : ℕ) (before : StateSpace A) (s : Syncing A) (key : ℕ) (body : L) (held : Option A)
      {s' : Syncing A}
      → KeepsAddress
      → state_of key s.space.state ≡ held
      → IsOpen block before s
      → touch address sync_amm s key body held ≡ (s', done tt)
      → IsOpen block before s'
  touched-IsOpen block before s key body none keeps is open_ runs =
      subst (IsOpen block before) (ap (λ r. r.0) runs) open_
  touched-IsOpen block before s key body (some amm) keeps is open_ runs =
      took-IsOpen block before s key amm body (sync_amm amm body) keeps is refl open_ runs

  and_then_lem :
      (r : Syncing A × Outcome StateSpaceError (Unit {0}))
      (rest : Syncing A → Syncing A × Outcome StateSpaceError (Unit {0})) {s' : Syncing A}
      → and_then address sync_amm r rest ≡ (s', done tt)
      → (s : Syncing A) × (r ≡ (s, done tt)) × (rest s ≡ (s', done tt))
  and_then_lem (s, done u) rest runs = (s, refl, runs)
  and_then_lem (s, failed e) rest runs = absurd (cc (ap (λ r. r.1) runs))
  and_then_lem (s, panicked) rest runs = absurd (cc (ap (λ r. r.1) runs))

  -- A log of the block that is open.
  numbered-same :
      (cap block : ℕ) (s : Syncing A) (log : Log L) (number : Option ℕ)
      → number ≡ some block
      → s.block_number ≡ block
      → numbered address sync_amm cap s log number
        ≡ touch address sync_amm s log.address log.body (state_of log.address s.space.state)
  numbered-same cap block s log none is same = absurd cc
  numbered-same cap block s log (some n) is same =
      let equal : (n == s.block_number) ≡ true = ground arith in rw equal refl

  pub sync_logs-IsOpen :
      (cap block : ℕ) (before : StateSpace A) (logs : List (Log L)) (s : Syncing A) {s' : Syncing A}
      → KeepsAddress
      → All (λ (log : Log L). log.block_number ≡ some block) logs
      → IsOpen block before s
      → sync_logs address sync_amm cap logs s ≡ (s', done tt)
      → IsOpen block before s'
  unfolding sync_logs IsOpen
  sync_logs-IsOpen cap block before [] s keeps here open_ runs =
      subst (IsOpen block before) (ap (λ r. r.0) runs) open_
  sync_logs-IsOpen cap block before (log ∷ logs) s keeps (now, here) open_ runs =
      let (s1, first, rest) =
        and_then_lem (numbered address sync_amm cap s log log.block_number)
          (sync_logs address sync_amm cap logs) runs in
      let touched = sym (numbered-same cap block s log log.block_number now open_.0) ∙ first in
      sync_logs-IsOpen cap block before logs s1 keeps here
        (touched-IsOpen block before s log.address log.body (state_of log.address s.space.state)
          keeps refl open_ touched)
        rest

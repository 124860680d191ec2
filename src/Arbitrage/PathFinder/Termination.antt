-- ===== src/Arbitrage/PathFinder/Termination.antt =====
-- The loop of src/arbitrage/pathfinder.rs ends within its fuel, with cycles of the graph.
use arbitrage_bot_v.Base.{
  ℕ, zero, suc, ◌+◌, ◌-◌, ◌*◌, ◌≤◌, ◌<◌, ◌≡◌, refl, ap, inl, inr, true, false, Bool-cases, Option,
  some, none, List, [], ◌∷◌, ◌++◌, leb, ◌==◌, length, length-append, All, All-weaken, All-append,
  arith,
}
use native.Mathlib.Nat.{mul-le-mul_right}
use arbitrage_bot_v.Arbitrage.Graph.{Edge, PoolGraph, token_of, outgoing}
use arbitrage_bot_v.Arbitrage.Optimizer.{ArbitragePath}
use arbitrage_bot_v.Arbitrage.PathFinder.{
  PathConstraints, Entry, follow_to, follow_known, follow_edge, follow_edges, expand, drain_queue,
  cost, cycles_from, cycles_from_token, cycles_below, unique_paths, find_cycles, seen_path,
  is_token,
}
use arbitrage_bot_v.Arbitrage.PathFinder.Cycles.{stay, IsCycle, IsEntry, IsFound, expand-IsFound}

length-outgoing : (node : ℕ) (edges : List Edge) → length (outgoing node edges) ≤ length edges
length-outgoing node [] = omega arith
length-outgoing node (e ∷ es) =
    let rest = length-outgoing node es in
    elim (Bool-cases (e.source == node)) [
      | inl same ↦ rw same (omega arith)
      | inr other ↦ rw other (omega arith)
    ]

whole : (n : ℕ) → n - 0 ≡ n
whole n = omega arith

module _ (g : PoolGraph) (constraints : PathConstraints) (start : ℕ) where
  -- Rounds of the loop that the queue may still cost.
  load : List Entry → ℕ
  load [] = 0
  load (entry ∷ queue) =
      cost (length g.edges) (constraints.max_length - length entry.path) + load queue

  load-append : (xs ys : List Entry) → load (xs ++ ys) ≡ load xs + load ys
  unfolding load
  load-append [] ys = omega arith
  load-append (x ∷ xs) ys = omega (arith, load-append xs ys)

  load_uniform :
      (len : ℕ) (entries : List Entry)
      → All (λ (e : Entry). IsEntry g constraints start e × (length e.path ≡ len)) entries
      → load entries ≡ length entries * cost (length g.edges) (constraints.max_length - len)
  unfolding load
  load_uniform len [] all = omega arith
  load_uniform len (e ∷ es) ((_, is), all) = rw is (omega (arith, load_uniform len es all))

  follow_known_few :
      (entry : Entry) (edge : Edge) (token : Option ℕ)
      → length (follow_known constraints start entry edge token).entries ≤ 1
  unfolding follow_to
  follow_known_few entry edge none = omega arith
  follow_known_few entry edge (some token) = ground arith

  follow_edges_few :
      (entry : Entry) (edges : List Edge)
      → length (follow_edges g constraints start entry edges).entries ≤ length edges
  unfolding follow_edges follow_edge
  follow_edges_few entry [] = omega arith
  follow_edges_few entry (e ∷ es) =
      let first = follow_known constraints start entry e (token_of g e.target) in
      let rest = follow_edges g constraints start entry es in
      omega (
        arith,
        length-append first.entries rest.entries,
        follow_known_few entry e (token_of g e.target),
        follow_edges_few entry es,
      )

  cost-pos : (edge_count left : ℕ) → 1 ≤ cost edge_count left
  cost-pos edge_count zero = omega arith
  cost-pos edge_count (suc left) = omega arith

  expand_few :
      (entry : Entry)
      → (length entry.path < constraints.max_length)
      → length (expand g constraints start entry).entries ≤ length g.edges
  unfolding expand
  expand_few entry short =
      let some_out = length-outgoing entry.node g.edges in
      let followed = follow_edges_few entry (outgoing entry.node g.edges) in ground arith

  expand_stops :
      (entry : Entry)
      → leb constraints.max_length (length entry.path) ≡ true
      → 1 + load (expand g constraints start entry).entries
        ≤ cost (length g.edges) (constraints.max_length - length entry.path)
  unfolding expand load
  expand_stops entry long =
      rw long (cost-pos (length g.edges) (constraints.max_length - length entry.path))

  expand-load :
      (entry : Entry)
      → IsEntry g constraints start entry
      → 1 + load (expand g constraints start entry).entries
        ≤ cost (length g.edges) (constraints.max_length - length entry.path)
  unfolding IsFound
  expand-load entry walk = elim (Bool-cases (leb constraints.max_length (length entry.path))) [
    | inl long ↦ expand_stops entry long
    | inr short ↦
        let left = constraints.max_length - suc (length entry.path) in
        let one_more : constraints.max_length - length entry.path ≡ suc left = ground arith in
        let uniform =
          load_uniform (suc (length entry.path)) (expand g constraints start entry).entries
            (expand-IsFound g constraints start entry walk).0 in
        let times =
          mul-le-mul_right (cost (length g.edges) left) (expand_few entry (ground arith)) in
        rw one_more (omega arith)
  ]

  drain_queue-IsCycle :
      (fuel : ℕ) (queue : List Entry)
      → load queue ≤ fuel
      → All (IsEntry g constraints start) queue
      → (paths : List ArbitragePath) × (drain_queue fuel g constraints start queue ≡ some paths)
        × All (IsCycle g constraints start) paths
  unfolding drain_queue load IsFound
  drain_queue-IsCycle fuel [] enough entries = ([], refl, tt)
  drain_queue-IsCycle zero (entry ∷ queue) enough entries =
      absurd (omega (arith, cost-pos (length g.edges) (constraints.max_length - length entry.path)))
  drain_queue-IsCycle (suc fuel) (entry ∷ queue) enough (walk, entries) =
      let found = expand g constraints start entry in
      let (longer, cycles) = expand-IsFound g constraints start entry walk in
      let spent = expand-load entry walk in
      let total = load-append queue found.entries in
      let (paths, ends, rest) = drain_queue-IsCycle fuel (queue ++ found.entries) (omega arith) (
        All-append _ queue found.entries entries
          (All-weaken (λ (e : Entry) h. h.0) found.entries longer)) in
      (found.cycles ++ paths, rw ends refl, All-append _ found.cycles paths cycles rest)

  cycles_from_token-IsCycle :
      (token : Option ℕ)
      → (paths : List ArbitragePath) × (cycles_from_token constraints g start token ≡ some paths)
        × All (IsCycle g constraints start) paths
  unfolding load IsEntry
  cycles_from_token-IsCycle none = ([], refl, tt)
  cycles_from_token-IsCycle (some token) =
      elim (Bool-cases (is_token constraints.required_start_token (some token))) [
        | inl wanted ↦
            let (paths, ends, cycles) =
              drain_queue-IsCycle (cost (length g.edges) constraints.max_length)
                (record { node = start; path = []; tokens_seen = token ∷ [] } ∷ [])
                (omega (arith, ap (cost (length g.edges)) (whole constraints.max_length)))
                (stay, tt) in
            (paths, rw wanted ends, cycles)
        | inr other ↦ ([], rw other refl, tt)
      ]

-- No path has the hops of an earlier one, or of one that is kept.
unfoldable pub IsFresh : (kept paths : List ArbitragePath) → Type 0
IsFresh kept [] = Unit {0}
IsFresh kept (path ∷ paths) = (seen_path path kept ≡ false) × IsFresh (path ∷ kept) paths

module _ (g : PoolGraph) (constraints : PathConstraints) where
  -- A cycle of the graph from some start.
  unfoldable pub IsSomeCycle : ArbitragePath → Type 0
  IsSomeCycle path = (start : ℕ) × IsCycle g constraints start path

  cycles_below-IsCycle :
      (count : ℕ)
      → (paths : List ArbitragePath) × (cycles_below g constraints count ≡ some paths)
        × All IsSomeCycle paths
  unfolding cycles_below cycles_from IsSomeCycle
  cycles_below-IsCycle zero = ([], refl, tt)
  cycles_below-IsCycle (suc count) =
      let (before, found, cycles) = cycles_below-IsCycle count in
      let (now, ends, more) = cycles_from_token-IsCycle g constraints count (token_of g count) in
      (
        before ++ now,
        rw found (rw ends refl),
        All-append _ before now cycles (All-weaken (λ path c. (count, c)) now more),
      )

  unique_paths_lem :
      (kept paths : List ArbitragePath)
      → All IsSomeCycle paths
      → All IsSomeCycle (unique_paths kept paths) × IsFresh kept (unique_paths kept paths)
  unfolding unique_paths IsFresh
  unique_paths_lem kept [] all = (tt, tt)
  unique_paths_lem kept (path ∷ paths) (cycle, all) = elim (Bool-cases (seen_path path kept)) [
    | inl seen ↦ rw seen (unique_paths_lem kept paths all)
    | inr fresh ↦
        let (rest, distinct) = unique_paths_lem (path ∷ kept) paths all in
        rw fresh ((cycle, rest), (fresh, distinct))
  ]

  -- The search ends on every graph, and returns cycles of the graph of at least one and at most
  -- the largest number of hops that meet the constraints, no two of the same hops.
  pub find_cycles-IsCycle :
      (paths : List ArbitragePath) × (find_cycles g constraints ≡ some paths)
      × All IsSomeCycle paths
      × IsFresh [] paths
  unfolding find_cycles
  find_cycles-IsCycle =
      let (paths, found, cycles) = cycles_below-IsCycle (length g.nodes) in
      let (all, fresh) = unique_paths_lem [] paths cycles in
      (unique_paths [] paths, rw found refl, all, fresh)

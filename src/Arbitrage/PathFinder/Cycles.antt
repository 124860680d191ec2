-- ===== src/Arbitrage/PathFinder/Cycles.antt =====
-- The search of src/arbitrage/pathfinder.rs ends, and what it returns are cycles of the graph.
use arbitrage_bot_v.Base.{
  ℕ, suc, ◌≤◌, ◌<◌, ◌≡◌, refl, subst, inl, inr, true, Bool-cases, ◌&&◌, not, Option, some, none,
  List, [], ◌∷◌, ◌++◌, map, leb, ◌==◌, ==_iff, length, length-append, All, All-weaken, All-append,
  arith,
}
use arbitrage_bot_v.Arbitrage.Data.{PoolEdge}
use arbitrage_bot_v.Arbitrage.Graph.{Edge, PoolGraph, token_of, outgoing}
use arbitrage_bot_v.Arbitrage.Optimizer.{ArbitragePath}
use arbitrage_bot_v.Arbitrage.PathFinder.{
  PathConstraints, Entry, Found, convert_edges, path_matches_constraints, closed, contains,
  follow_to, follow_known, follow_edge, follow_edges, expand, hop_of,
}

-- An edge of the list, at some place.
pub data Within (edge : Edge) : List Edge → Type 0 where
  at_head : {edges : List Edge} → Within edge (edge ∷ edges)
  later : {other : Edge} {edges : List Edge} → Within edge edges → Within edge (other ∷ edges)

-- The edges `path` lead from `from` to `to` in the graph.
pub data Walk (g : PoolGraph) (start : ℕ) : List PoolEdge → ℕ → Type 0 where
  stay : Walk g start [] start
  go_on :
      {path : List PoolEdge} {node : ℕ} (edge : Edge)
      → Walk g start path node
      → edge.source ≡ node
      → Within edge g.edges
      → Walk g start (path ++ edge.weight ∷ []) edge.target

outgoing-lem :
    (node : ℕ) (edges : List Edge)
    → All (λ (e : Edge). (e.source ≡ node) × Within e edges) (outgoing node edges)
outgoing-lem node [] = tt
outgoing-lem node (e ∷ es) =
    let rest =
      All-weaken
        (λ (e' : Edge) (h : (e'.source ≡ node) × Within e' es). (h.0, later {other = e} h.1))
        (outgoing node es) (outgoing-lem node es) in
    elim (Bool-cases (e.source == node)) [
      | inl same ↦ rw same (((==_iff e.source node).0 same, at_head), rest)
      | inr other ↦ rw other rest
    ]

module _ (g : PoolGraph) (constraints : PathConstraints) (start : ℕ) where
  -- What every path that the search returns is made of.
  unfoldable pub IsCycle : ArbitragePath → Type 0
  IsCycle path =
      (edges : List PoolEdge) × Walk g start edges start
      × (path.hops ≡ map hop_of edges)
      × (1 ≤ length edges)
      × (length edges ≤ constraints.max_length)
      × (path_matches_constraints path constraints ≡ true)

  unfoldable pub IsEntry : Entry → Type 0
  IsEntry entry = Walk g start entry.path entry.node

  closed-IsCycle :
      (edges : List PoolEdge)
      → Walk g start edges start
      → length edges ≤ constraints.max_length
      → All IsCycle (closed constraints edges)
  unfolding closed convert_edges IsCycle
  closed-IsCycle [] walk short = tt
  closed-IsCycle (edge ∷ edges) walk short =
      let path : ArbitragePath = record { hops = map hop_of (edge ∷ edges) } in
      elim (Bool-cases (path_matches_constraints path constraints)) [
        | inl meets ↦ rw meets ((edge ∷ edges, walk, refl, omega arith, short, meets), tt)
        | inr fails ↦ rw fails tt
      ]

  -- What one edge, or several, may add: entries one longer, and cycles.
  unfoldable pub IsFound : ℕ → Found → Type 0
  IsFound len found =
      All (λ (e : Entry). IsEntry e × (length e.path ≡ suc len)) found.entries
      × All IsCycle found.cycles

  follow_to-IsFound :
      (entry : Entry) (edge : Edge) (token : ℕ)
      → IsEntry entry
      → length entry.path < constraints.max_length
      → edge.source ≡ entry.node
      → Within edge g.edges
      → IsFound (length entry.path) (follow_to constraints start entry edge token)
  unfolding follow_to IsFound IsEntry
  follow_to-IsFound entry edge token walk short source within =
      let longer = go_on edge walk source within in
      let len = length-append entry.path (edge.weight ∷ []) in
      elim (Bool-cases (
        not constraints.allow_self_cycle
        && (contains token entry.tokens_seen && not (edge.target == start)))) [
          | inl skipped ↦ rw skipped (tt, tt)
          | inr kept ↦ rw kept (elim (Bool-cases (edge.target == start)) [
            | inl back ↦ rw back (
              tt,
              closed-IsCycle (entry.path ++ edge.weight ∷ [])
                  (subst (Walk g start (entry.path ++ edge.weight ∷ []))
                    ((==_iff edge.target start).0 back) longer)
                  (omega arith),
            )
            | inr away ↦ rw away (((longer, omega arith), tt), tt)
          ])
        ]

  follow_known-IsFound :
      (entry : Entry) (edge : Edge) (token : Option ℕ)
      → IsEntry entry
      → length entry.path < constraints.max_length
      → edge.source ≡ entry.node
      → Within edge g.edges
      → IsFound (length entry.path) (follow_known constraints start entry edge token)
  unfolding IsFound
  follow_known-IsFound entry edge none walk short source within = (tt, tt)
  follow_known-IsFound entry edge (some token) walk short source within =
      follow_to-IsFound entry edge token walk short source within

  follow_edges-IsFound :
      (entry : Entry) (edges : List Edge)
      → IsEntry entry
      → length entry.path < constraints.max_length
      → All (λ (e : Edge). (e.source ≡ entry.node) × Within e g.edges) edges
      → IsFound (length entry.path) (follow_edges g constraints start entry edges)
  unfolding follow_edges follow_edge IsFound
  follow_edges-IsFound entry [] walk short tt = (tt, tt)
  follow_edges-IsFound entry (e ∷ es) walk short ((source, within), all) =
      let (entries, cycles) =
        follow_known-IsFound entry e (token_of g e.target) walk short source within in
      let (entries', cycles') = follow_edges-IsFound entry es walk short all in
      (All-append _ _ _ entries entries', All-append _ _ _ cycles cycles')

  pub expand-IsFound :
      (entry : Entry)
      → IsEntry entry
      → IsFound (length entry.path) (expand g constraints start entry)
  unfolding expand IsFound
  expand-IsFound entry walk = elim (Bool-cases (leb constraints.max_length (length entry.path))) [
    | inl long ↦ rw long (tt, tt)
    | inr short ↦ rw short (
        follow_edges-IsFound entry (outgoing entry.node g.edges) walk (ground arith)
          (outgoing-lem entry.node g.edges))
  ]

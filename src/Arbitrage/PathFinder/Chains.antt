-- ===== src/Arbitrage/PathFinder/Chains.antt =====
-- The cycles of src/arbitrage/pathfinder.rs in a graph of src/arbitrage/graph.rs hand tokens on.
use arbitrage_bot_v.Base.{
  ℕ, ◌≤◌, ◌≡◌, refl, sym, ap, subst, ◌∙◌, some, List, [], ◌∷◌, ◌++◌, map, length, All, All-weaken,
  arith,
}
use arbitrage_bot_v.Arbitrage.Data.{Amm, PoolEdge}
use arbitrage_bot_v.Arbitrage.Graph.{Edge, PoolGraph, token_of, build_graph}
use arbitrage_bot_v.Arbitrage.Graph.Consistency.{JoinsTokens, build_graph-JoinsTokens}
use arbitrage_bot_v.Arbitrage.Optimizer.{PathHop, ArbitragePath}
use arbitrage_bot_v.Arbitrage.PathFinder.{PathConstraints, find_cycles, hop_of}
use arbitrage_bot_v.Arbitrage.PathFinder.Cycles.{Within, at_head, later, Walk, stay, go_on, IsCycle}
use arbitrage_bot_v.Arbitrage.PathFinder.Termination.{IsSomeCycle, find_cycles-IsCycle}

-- The hops lead from the token `from` to the token `to`, each taking what the one before gives.
abbrev pub Chain : ℕ → List PathHop → ℕ → Type 0
Chain from [] to = from ≡ to
Chain from (hop ∷ hops) to = (hop.token_in ≡ from) × Chain hop.token_out hops to

append-Chain :
    (from to : ℕ) (hops : List PathHop) (hop : PathHop)
    → Chain from hops to
    → hop.token_in ≡ to
    → Chain from (hops ++ hop ∷ []) hop.token_out
append-Chain from to [] hop chain next = (next ∙ sym chain, refl)
append-Chain from to (h ∷ hops) hop (first, chain) next =
    (first, append-Chain h.token_out to hops hop chain next)

map-snoc :
    (edges : List PoolEdge) (edge : PoolEdge)
    → map hop_of (edges ++ edge ∷ []) ≡ map hop_of edges ++ hop_of edge ∷ []
map-snoc [] edge = refl
map-snoc (e ∷ edges) edge = ap (λ hops. hop_of e ∷ hops) (map-snoc edges edge)

length-map : (edges : List PoolEdge) → length (map hop_of edges) ≡ length edges
length-map [] = refl
length-map (e ∷ edges) = omega (arith, length-map edges)

within-All :
    (P : Edge → Type 0) (edge : Edge) (edges : List Edge) → Within edge edges → All P edges → P edge
within-All P edge [] within _ = elim within [ ]
within-All P edge (e ∷ edges) at_head (p, all) = p
within-All P edge (e ∷ edges) (later within) (p, all) = within-All P edge edges within all

same_some : (a b : ℕ) → some a ≡ some b → a ≡ b
same_some a b same = cc

module _ (g : PoolGraph) (joined : All (JoinsTokens g.node_tokens) g.edges) where
  Walk-Chain :
      (start token : ℕ) (edges : List PoolEdge) (node : ℕ)
      → token_of g start ≡ some token
      → Walk g start edges node
      → (to : ℕ) × (token_of g node ≡ some to) × Chain token (map hop_of edges) to
  unfolding JoinsTokens
  Walk-Chain start token edges node known stay = (token, known, refl)
  Walk-Chain start token edges node known
        (go_on {path = path} {node = last} edge walk source within) =
      let (to, bears, chain) = Walk-Chain start token path last known walk in
      let (from_token, to_token) =
        within-All (JoinsTokens g.node_tokens) edge g.edges within joined in
      let next : edge.weight.token_in.address ≡ to =
        same_some _ _ (sym from_token ∙ ap (token_of g) source ∙ bears) in
      (
        edge.weight.token_out.address,
        to_token,
        subst (λ hops. Chain token hops edge.weight.token_out.address)
            (sym (map-snoc path edge.weight))
            (append-Chain token to (map hop_of path) (hop_of edge.weight) chain next),
      )

  -- Where a walk of some edges ends there is a token.
  start_known :
      (start node : ℕ) (edges : List PoolEdge)
      → Walk g start edges node
      → 1 ≤ length edges
      → (token : ℕ) × (token_of g node ≡ some token)
  unfolding JoinsTokens
  start_known start node edges stay some_edge = absurd (omega arith)
  start_known start node edges (go_on {path = path} edge walk source within) some_edge = (
    edge.weight.token_out.address,
    (within-All (JoinsTokens g.node_tokens) edge g.edges within joined).1,
  )

  IsCycle-Chain :
      (constraints : PathConstraints) (path : ArbitragePath)
      → IsSomeCycle g constraints path
      → ((token : ℕ) × Chain token path.hops token)
        × (1 ≤ length path.hops)
        × (length path.hops ≤ constraints.max_length)
  unfolding IsSomeCycle IsCycle
  IsCycle-Chain constraints path (start, (edges, walk, hops, low, high, _)) =
      let (token, known) = start_known start start edges walk low in
      let (to, back, chain) = Walk-Chain start token edges start known walk in
      let closes =
        subst (Chain token (map hop_of edges)) (same_some to token (sym back ∙ known)) chain in
      let count = ap length hops ∙ length-map edges in
      ((token, subst (λ hs. Chain token hs token) (sym hops) closes), omega arith, omega arith)

-- On the graph of any pools the search returns only paths that start and end with one token, each
-- hop taking the token that the hop before gives, of at least one and at most the largest number
-- of hops.
pub find_cycles-Chain :
    (pools : List Amm) (constraints : PathConstraints)
    → (paths : List ArbitragePath) × (find_cycles (build_graph pools) constraints ≡ some paths)
      × All
          (λ (path : ArbitragePath).
            ((token : ℕ) × Chain token path.hops token)
            × (1 ≤ length path.hops)
            × (length path.hops ≤ constraints.max_length))
          paths
find_cycles-Chain pools constraints =
    let joined = (build_graph-JoinsTokens pools).0 in
    let (paths, found, cycles, _) = find_cycles-IsCycle (build_graph pools) constraints in
    (paths, found, All-weaken (IsCycle-Chain (build_graph pools) joined constraints) paths cycles)

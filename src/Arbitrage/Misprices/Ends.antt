-- ===== src/Arbitrage/Misprices/Ends.antt =====
-- The pairs of src/arbitrage/pathfinder.rs never lead back.
use arbitrage_bot_v.Base.{
  ℕ, zero, suc, ◌≡◌, ◌≢◌, refl, sym, ◌∙◌, subst, inl, inr, true, Bool-cases, Option, some, none,
  List, [], ◌∷◌, ◌==◌, ◌&&◌, length, All, All-append, arith,
}
use arbitrage_bot_v.Arbitrage.Graph.{Edge, PoolGraph}
use arbitrage_bot_v.Arbitrage.Optimizer.{ArbitragePath}
use arbitrage_bot_v.Arbitrage.PathFinder.{
  PathConstraints, closed, convert_edges, path_matches_constraints, unique_paths, seen_path, hop_of,
}
use arbitrage_bot_v.Arbitrage.PathFinder.Cycles.{Within, at_head, later}
use arbitrage_bot_v.Arbitrage.Misprices.{
  find_edge, joined_path, misprice, misprices_to, misprices_from, misprices_below,
  find_two_pool_misprices,
}

find_edge-Within :
    (from to : ℕ) (edges : List Edge) {edge : Edge}
    → find_edge from to edges ≡ some edge
    → Within edge edges × (edge.source ≡ from) × (edge.target ≡ to)
find_edge-Within from to [] is = absurd cc
find_edge-Within from to (e ∷ es) {edge} is =
    elim (Bool-cases ((e.source == from) && (e.target == to))) [
      | inl this ↦
          let same : e ≡ edge = ground arith in
          (subst (λ x. Within x (e ∷ es)) same at_head, ground arith, ground arith)
      | inr other ↦
          let (within, source, target) = find_edge-Within from to es (ground arith) in
          (later within, source, target)
    ]

module _ (g : PoolGraph) (constraints : PathConstraints) where
  -- Two edges of the graph, one after the other, that end at another node than they start from.
  unfoldable pub IsOpenPair : ArbitragePath → Type 0
  IsOpenPair path =
      (in_edge : Edge) × (out_edge : Edge) × Within in_edge g.edges
      × Within out_edge g.edges
      × (in_edge.target ≡ out_edge.source)
      × (in_edge.source ≢ out_edge.target)
      × (path.hops ≡ hop_of in_edge.weight ∷ hop_of out_edge.weight ∷ [])
      × (path_matches_constraints path constraints ≡ true)

  joined_path-IsOpenPair :
      (node from to : ℕ) (in_edge out_edge : Option Edge)
      → from ≢ to
      → find_edge from node g.edges ≡ in_edge
      → find_edge node to g.edges ≡ out_edge
      → All IsOpenPair (joined_path constraints in_edge out_edge)
  unfolding closed convert_edges IsOpenPair
  joined_path-IsOpenPair node from to none out_edge differ is_in is_out = tt
  joined_path-IsOpenPair node from to (some a) none differ is_in is_out = tt
  joined_path-IsOpenPair node from to (some a) (some b) differ is_in is_out =
      let path : ArbitragePath = record { hops = hop_of a.weight ∷ hop_of b.weight ∷ [] } in
      let (in_graph, source, middle) = find_edge-Within from node g.edges is_in in
      let (out_graph, start, target) = find_edge-Within node to g.edges is_out in
      elim (Bool-cases (path_matches_constraints path constraints)) [
        | inl meets ↦ rw meets (
          (
            a,
            b,
            in_graph,
            out_graph,
            middle ∙ sym start,
            λ same. differ (sym source ∙ same ∙ target),
            refl,
            meets,
          ),
          tt,
        )
        | inr fails ↦ rw fails tt
      ]

  misprice-IsOpenPair : (node from to : ℕ) → All IsOpenPair (misprice g constraints node from to)
  unfolding misprice
  misprice-IsOpenPair node from to = elim (Bool-cases (from == to)) [
    | inl same ↦ rw same tt
    | inr differ ↦
        let apart : from ≢ to = ground arith in
        rw differ (joined_path-IsOpenPair node from to _ _ apart refl refl)
  ]

  misprices_to-IsOpenPair :
      (node from : ℕ) (outs : List ℕ) → All IsOpenPair (misprices_to g constraints node from outs)
  unfolding misprices_to
  misprices_to-IsOpenPair node from [] = tt
  misprices_to-IsOpenPair node from (to ∷ outs) =
      All-append _ _ _ (misprice-IsOpenPair node from to) (misprices_to-IsOpenPair node from outs)

  misprices_from-IsOpenPair :
      (node : ℕ) (ins outs : List ℕ) → All IsOpenPair (misprices_from g constraints node ins outs)
  unfolding misprices_from
  misprices_from-IsOpenPair node [] outs = tt
  misprices_from-IsOpenPair node (from ∷ ins) outs =
      All-append _ _ _ (misprices_to-IsOpenPair node from outs)
        (misprices_from-IsOpenPair node ins outs)

  misprices_below-IsOpenPair : (count : ℕ) → All IsOpenPair (misprices_below g constraints count)
  unfolding misprices_below
  misprices_below-IsOpenPair zero = tt
  misprices_below-IsOpenPair (suc node) =
      All-append _ _ _ (misprices_below-IsOpenPair node) (misprices_from-IsOpenPair node _ _)

  unique_paths-All :
      (kept paths : List ArbitragePath)
      → All IsOpenPair paths
      → All IsOpenPair (unique_paths kept paths)
  unfolding unique_paths
  unique_paths-All kept [] all = tt
  unique_paths-All kept (path ∷ paths) (open_pair, all) = elim (Bool-cases (seen_path path kept)) [
    | inl seen ↦ rw seen (unique_paths-All kept paths all)
    | inr fresh ↦ rw fresh (open_pair, unique_paths-All (path ∷ kept) paths all)
  ]

  -- Every path that the search for two mispriced pools returns is of two edges of the graph, one
  -- after the other, that meet the constraints and end at another node than they start from.
  pub find_two_pool_misprices-IsOpenPair : All IsOpenPair (find_two_pool_misprices g constraints)
  unfolding find_two_pool_misprices
  find_two_pool_misprices-IsOpenPair =
      unique_paths-All [] _ (misprices_below-IsOpenPair (length g.nodes))

-- ===== src/Arbitrage/Graph/Consistency.antt =====
-- The graph that src/arbitrage/graph.rs builds.
use arbitrage_bot_v.Base.{
  ℕ, ◌+◌, ◌<◌, ◌≡◌, refl, sym, ap, subst, inl, inr, false, Bool-cases, Option, some, none, List, [],
  ◌∷◌, ◌++◌, map, ◌==◌, ==_ne, ==_self, length, length-append, All, All-weaken, arith,
}
use arbitrage_bot_v.Base.Outcome.{Outcome, panicked, failed, done}
use arbitrage_bot_v.Arbitrage.Data.{
  Amm, TokenState, PoolEdge, PoolExtraction, ArbitrageError, extract_pool, into_edges,
}
use arbitrage_bot_v.Arbitrage.Graph.{
  Edge, EdgeKey, Builder, lookup, or_insert, add_extracted, edge_key, seen_key, node_for,
  add_edge_once, add_extraction, add_pool, add_pools, empty_builder, build_graph,
}

-- The ends of an edge are the nodes of its two tokens.
unfoldable pub JoinsTokens : List (ℕ × ℕ) → Edge → Type 0
JoinsTokens node_tokens e =
    (lookup e.source node_tokens ≡ some e.weight.token_in.address)
    × (lookup e.target node_tokens ≡ some e.weight.token_out.address)

-- No key is among the ones before it.
unfoldable pub IsDistinct : List EdgeKey → Type 0
IsDistinct [] = Unit {0}
IsDistinct (key ∷ keys) = (seen_key key keys ≡ false) × IsDistinct keys

abbrev pub key_of : Edge → EdgeKey
key_of e = edge_key e.weight

-- A node below `count` that bears the token, and an edge between two nodes of its tokens.
Bears : ℕ → List (ℕ × ℕ) → ℕ → ℕ → Type 0
Bears count node_tokens address node = (node < count) × (lookup node node_tokens ≡ some address)

IsJoined : ℕ → List (ℕ × ℕ) → Edge → Type 0
IsJoined count node_tokens e =
    Bears count node_tokens e.weight.token_in.address e.source
    × Bears count node_tokens e.weight.token_out.address e.target

-- What the loop of `build_graph` keeps true: a known token has a node below the count that bears
-- it, every edge joins the nodes of its tokens, and the keys seen are those of the edges.
IsBuilt : Builder → Type 0
IsBuilt b =
    All (λ (entry : ℕ × ℕ). Bears (length b.graph.nodes) b.graph.node_tokens entry.0 entry.1)
      b.token_nodes
    × All (IsJoined (length b.graph.nodes) b.graph.node_tokens) b.graph.edges
    × (b.edge_seen ≡ map key_of b.graph.edges)
    × IsDistinct b.edge_seen

lookup-Bears :
    (count : ℕ) (node_tokens : List (ℕ × ℕ)) (address : ℕ) (known : List (ℕ × ℕ)) {node : ℕ}
    → All (λ (entry : ℕ × ℕ). Bears count node_tokens entry.0 entry.1) known
    → lookup address known ≡ some node
    → Bears count node_tokens address node
unfolding Bears
lookup-Bears count node_tokens address [] all is = absurd cc
lookup-Bears count node_tokens address ((a, n) ∷ known) ((low, bears), all) is =
    elim (Bool-cases (a == address)) [
      | inl same ↦ (ground arith, ground arith)
      | inr other ↦ lookup-Bears count node_tokens address known all (ground arith)
    ]

-- A new node bears its token.
new-Bears :
    (node count address : ℕ) (node_tokens : List (ℕ × ℕ))
    → node < count
    → Bears count ((node, address) ∷ node_tokens) address node
unfolding Bears
new-Bears node count address node_tokens low = (low, rw (==_self node) refl)

-- A new node takes nothing from the others.
grow-Bears :
    (count : ℕ) (node_tokens : List (ℕ × ℕ)) (new address node : ℕ)
    → Bears count node_tokens address node
    → Bears (count + 1) ((count, new) ∷ node_tokens) address node
unfolding Bears
grow-Bears count node_tokens new address node (low, bears) =
    (omega arith, rw (==_ne count node (ground arith)) bears)

-- Whatever bore a token still does.
Keeps : Builder → Builder → Type 0
Keeps b b' =
    (address node : ℕ)
    → Bears (length b.graph.nodes) b.graph.node_tokens address node
    → Bears (length b'.graph.nodes) b'.graph.node_tokens address node

or_insert-IsBuilt :
    (token : TokenState) (b : Builder) (known : Option ℕ)
    → lookup token.address b.token_nodes ≡ known
    → IsBuilt b
    → let b' = (or_insert token b known).0 in
      IsBuilt b'
      × Bears (length b'.graph.nodes) b'.graph.node_tokens token.address (or_insert token b known).1
      × Keeps b b'
unfolding IsBuilt Keeps IsJoined
or_insert-IsBuilt token b (some node) is (known, joined, seen, distinct) = (
  (known, joined, seen, distinct),
  lookup-Bears _ _ token.address b.token_nodes known is,
  λ a n h. h,
)
or_insert-IsBuilt token b none is (known, joined, seen, distinct) =
    let count = length b.graph.nodes in
    let longer : length (b.graph.nodes ++ token.address ∷ []) ≡ count + 1 =
      length-append b.graph.nodes (token.address ∷ []) in
    let grow = λ (a : ℕ) (n : ℕ) (h : Bears count b.graph.node_tokens a n).
      subst (λ c. Bears c ((count, token.address) ∷ b.graph.node_tokens) a n) (sym longer)
        (grow-Bears count b.graph.node_tokens token.address a n h) in
    let fresh : Bears (length (b.graph.nodes ++ token.address ∷ []))
        ((count, token.address) ∷ b.graph.node_tokens) token.address count =
      new-Bears count _ token.address b.graph.node_tokens (omega arith) in
    (
      (
        (fresh, All-weaken (λ (entry : ℕ × ℕ) h. grow entry.0 entry.1 h) b.token_nodes known),
        All-weaken (λ (e : Edge) h. (grow _ _ h.0, grow _ _ h.1)) b.graph.edges joined,
        seen,
        distinct,
      ),
      fresh,
      grow,
    )

add_edge_once-IsBuilt :
    (source target : ℕ) (edge : PoolEdge) (b : Builder)
    → Bears (length b.graph.nodes) b.graph.node_tokens edge.token_in.address source
    → Bears (length b.graph.nodes) b.graph.node_tokens edge.token_out.address target
    → IsBuilt b
    → IsBuilt (add_edge_once source target edge b) × Keeps b (add_edge_once source target edge b)
unfolding add_edge_once IsBuilt Keeps IsDistinct IsJoined
add_edge_once-IsBuilt source target edge b from to (known, joined, seen, distinct) =
    elim (Bool-cases (seen_key (edge_key edge) b.edge_seen)) [
      | inl old ↦ rw old ((known, joined, seen, distinct), λ a n h. h)
      | inr new ↦ rw new (
        (known, ((from, to), joined), ap (λ keys. edge_key edge ∷ keys) seen, (new, distinct)),
        λ a n h. h,
      )
    ]

add_extraction-IsBuilt :
    (extraction : PoolExtraction) (pool_address : ℕ) (b : Builder)
    → IsBuilt b
    → IsBuilt (add_extraction extraction pool_address b)
unfolding add_extraction node_for Keeps
add_extraction-IsBuilt extraction pool_address b built =
    let (forward, reverse) = into_edges extraction pool_address in
    let (b1, a) = node_for forward.token_in b in
    let (built1, bears_a, keeps1) =
      or_insert-IsBuilt forward.token_in b (lookup forward.token_in.address b.token_nodes) refl
        built in
    let (b2, c) = node_for forward.token_out b1 in
    let (built2, bears_c, keeps2) =
      or_insert-IsBuilt forward.token_out b1 (lookup forward.token_out.address b1.token_nodes) refl
        built1 in
    let bears_a2 = keeps2 _ _ bears_a in
    let (built3, keeps3) = add_edge_once-IsBuilt a c forward b2 bears_a2 bears_c built2 in
    (add_edge_once-IsBuilt c a reverse (add_edge_once a c forward b2) (keeps3 _ _ bears_c)
      (keeps3 _ _ bears_a2) built3).0

add_extracted-IsBuilt :
    (pool_address : ℕ) (extracted : Outcome ArbitrageError PoolExtraction) (b : Builder)
    → IsBuilt b
    → IsBuilt (add_extracted pool_address extracted b)
add_extracted-IsBuilt pool_address (done extraction) b built =
    add_extraction-IsBuilt extraction pool_address b built
add_extracted-IsBuilt pool_address (failed e) b built = built
add_extracted-IsBuilt pool_address panicked b built = built

add_pools-IsBuilt : (pools : List Amm) (b : Builder) → IsBuilt b → IsBuilt (add_pools pools b)
unfolding add_pools add_pool
add_pools-IsBuilt [] b built = built
add_pools-IsBuilt (pool ∷ pools) b built =
    add_pools-IsBuilt pools (add_pool pool b)
      (add_extracted-IsBuilt pool.address (extract_pool pool) b built)

-- In the graph of any pools every edge leads from the node of its token in to the node of its
-- token out, and no two edges agree in pool, token in and token out.
pub build_graph-JoinsTokens :
    (pools : List Amm)
    → All (JoinsTokens (build_graph pools).node_tokens) (build_graph pools).edges
      × IsDistinct (map key_of (build_graph pools).edges)
unfolding IsBuilt IsJoined Bears JoinsTokens IsDistinct
build_graph-JoinsTokens pools =
    let (_, joined, seen, distinct) = add_pools-IsBuilt pools empty_builder (tt, tt, refl, tt) in
    (
      All-weaken (λ (e : Edge) h. (h.0.1, h.1.1)) (build_graph pools).edges joined,
      subst IsDistinct seen distinct,
    )

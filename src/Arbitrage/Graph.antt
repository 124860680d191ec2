-- ===== src/Arbitrage/Graph.antt =====
-- src/arbitrage/graph.rs. A DiGraph is its node weights by index and its edges, the latest first,
-- as petgraph iterates over them; a HashMap is the list of its insertions, the latest first.
pub mod Consistency
use arbitrage_bot_v.Base.{
  ℕ, zero, suc, Bool, true, false, ◌&&◌, ◌||◌, Option, some, none, List, [], ◌∷◌, ◌++◌, ◌==◌,
  if◌then◌else◌, length,
}
use arbitrage_bot_v.Base.Outcome.{Outcome, panicked, failed, done}
use arbitrage_bot_v.Arbitrage.Data.{
  Amm, TokenState, PoolEdge, PoolExtraction, ArbitrageError, extract_pool, into_edges,
}

pub record Edge : Type 0 where
  pub source : ℕ
  pub target : ℕ
  pub weight : PoolEdge

pub record PoolGraph : Type 0 where
  pub nodes : List ℕ
  pub edges : List Edge
  pub node_tokens : List (ℕ × ℕ)
  pub node_decimals : List (ℕ × ℕ)

abbrev pub lookup {ℓ} : {A : Type ℓ} → ℕ → List (ℕ × A) → Option A
lookup key [] = none
lookup key (entry ∷ entries) = if entry.0 == key then some entry.1 else lookup key entries

abbrev pub token_of : PoolGraph → ℕ → Option ℕ
token_of g node = lookup node g.node_tokens

abbrev pub decimals_of : PoolGraph → ℕ → Option ℕ
decimals_of g node = lookup node g.node_decimals

-- `graph.edges(node)`.
abbrev pub outgoing : ℕ → List Edge → List Edge
outgoing node [] = []
outgoing node (e ∷ es) = if e.source == node then e ∷ outgoing node es else outgoing node es

-- Pool, token in and token out.
pub record EdgeKey : Type 0 where
  pub pool : ℕ
  pub from : ℕ
  pub to : ℕ

abbrev pub edge_key : PoolEdge → EdgeKey
edge_key e = record { pool = e.pool_address; from = e.token_in.address; to = e.token_out.address }

abbrev pub same_key : EdgeKey → EdgeKey → Bool
same_key a b = (a.pool == b.pool) && ((a.from == b.from) && (a.to == b.to))

abbrev pub seen_key : EdgeKey → List EdgeKey → Bool
seen_key key [] = false
seen_key key (k ∷ keys) = same_key key k || seen_key key keys

-- The local variables of `build_graph`.
pub record Builder : Type 0 where
  pub graph : PoolGraph
  pub token_nodes : List (ℕ × ℕ)
  pub edge_seen : List EdgeKey

-- `token_nodes.entry(..).or_insert_with(..)`: the known node, or a new one.
abbrev pub or_insert : TokenState → Builder → Option ℕ → Builder × ℕ
or_insert token b (some known) = (b, known)
or_insert token b none = (
  record {
    graph = record {
      nodes = b.graph.nodes ++ token.address ∷ [];
      edges = b.graph.edges;
      node_tokens = (length b.graph.nodes, token.address) ∷ b.graph.node_tokens;
      node_decimals = (length b.graph.nodes, token.decimals) ∷ b.graph.node_decimals;
    };
    token_nodes = (token.address, length b.graph.nodes) ∷ b.token_nodes;
    edge_seen = b.edge_seen;
  },
  length b.graph.nodes,
)

unfoldable pub node_for : TokenState → Builder → Builder × ℕ
node_for token b = or_insert token b (lookup token.address b.token_nodes)

-- `if edge_seen.insert(key) { graph.add_edge(..) }`.
unfoldable pub add_edge_once : ℕ → ℕ → PoolEdge → Builder → Builder
add_edge_once source target edge b = if seen_key (edge_key edge) b.edge_seen then b else record b {
  graph = record b.graph {
    edges = record { source = source; target = target; weight = edge } ∷ b.graph.edges;
  };
  edge_seen = edge_key edge ∷ b.edge_seen;
}

unfoldable pub add_extraction : PoolExtraction → ℕ → Builder → Builder
add_extraction extraction pool_address b =
    let (forward_edge, reverse_edge) = into_edges extraction pool_address in
    let (b1, token_a_idx) = node_for forward_edge.token_in b in
    let (b2, token_b_idx) = node_for forward_edge.token_out b1 in
    add_edge_once token_b_idx token_a_idx reverse_edge
      (add_edge_once token_a_idx token_b_idx forward_edge b2)

-- A pool whose tokens have no decimals is skipped.
abbrev pub add_extracted : ℕ → Outcome ArbitrageError PoolExtraction → Builder → Builder
add_extracted pool_address (done extraction) b = add_extraction extraction pool_address b
add_extracted pool_address (failed e) b = b
add_extracted pool_address panicked b = b

unfoldable pub add_pool : Amm → Builder → Builder
add_pool pool b = add_extracted pool.address (extract_pool pool) b

unfoldable pub add_pools : List Amm → Builder → Builder
add_pools [] b = b
add_pools (pool ∷ pools) b = add_pools pools (add_pool pool b)

abbrev pub empty_builder : Builder
empty_builder = record {
  graph = record { nodes = []; edges = []; node_tokens = []; node_decimals = [] };
  token_nodes = [];
  edge_seen = [];
}

-- The pools stand in the order in which the map of the state space yields them.
abbrev pub build_graph : List Amm → PoolGraph
build_graph pools = (add_pools pools empty_builder).graph

-- ===== src/Arbitrage/PathFinder.antt =====
-- src/arbitrage/pathfinder.rs: the cycles through the graph of the pools, breadth first.
pub mod Cycles
pub mod Termination
pub mod Chains
use arbitrage_bot_v.Base.{
  ℕ, zero, suc, ◌+◌, ◌*◌, Bool, true, false, ◌&&◌, ◌||◌, not, Option, some, none, List, [], ◌∷◌,
  ◌++◌, map, ltb, leb, ◌==◌, if◌then◌else◌, length,
}
use arbitrage_bot_v.Arbitrage.Data.{PoolEdge}
use arbitrage_bot_v.Arbitrage.Graph.{Edge, PoolGraph, EdgeKey, token_of, outgoing, same_key}
use arbitrage_bot_v.Arbitrage.Optimizer.{PathHop, ArbitragePath}

pub record PathConstraints : Type 0 where
  pub max_length : ℕ
  pub allow_self_cycle : Bool
  pub required_start_token : Option ℕ
  pub required_end_token : Option ℕ

abbrev pub hop_of : PoolEdge → PathHop
hop_of edge = record {
  pool_address = edge.pool_address;
  token_in = edge.token_in.address;
  token_out = edge.token_out.address;
  fee_bps = edge.fee_bps;
}

unfoldable pub convert_edges : List PoolEdge → Option ArbitragePath
convert_edges [] = none
convert_edges (edge ∷ edges) = some (record { hops = map hop_of (edge ∷ edges) })

abbrev pub last_hop : List PathHop → Option PathHop
last_hop [] = none
last_hop (hop ∷ []) = some hop
last_hop (hop ∷ next ∷ hops) = last_hop (next ∷ hops)

abbrev pub first_hop : List PathHop → Option PathHop
first_hop [] = none
first_hop (hop ∷ hops) = some hop

abbrev pub is_token : Option ℕ → Option ℕ → Bool
is_token none token = true
is_token (some required) none = false
is_token (some required) (some token) = token == required

abbrev pub token_in_of : Option PathHop → Option ℕ
token_in_of none = none
token_in_of (some hop) = some hop.token_in

abbrev pub token_out_of : Option PathHop → Option ℕ
token_out_of none = none
token_out_of (some hop) = some hop.token_out

unfoldable pub path_matches_constraints : ArbitragePath → PathConstraints → Bool
path_matches_constraints path constraints =
    is_token constraints.required_start_token (token_in_of (first_hop path.hops))
    && is_token constraints.required_end_token (token_out_of (last_hop path.hops))

-- An entry of the queue.
pub record Entry : Type 0 where
  pub node : ℕ
  pub path : List PoolEdge
  pub tokens_seen : List ℕ

abbrev pub contains : ℕ → List ℕ → Bool
contains x [] = false
contains x (y ∷ ys) = (x == y) || contains x ys

-- What one edge adds: entries to the queue, and cycles.
pub record Found : Type 0 where
  pub entries : List Entry
  pub cycles : List ArbitragePath

abbrev pub nothing_found : Found
nothing_found = record { entries = []; cycles = [] }

-- A path back to the start, if it meets the constraints.
unfoldable pub closed : PathConstraints → List PoolEdge → List ArbitragePath
closed constraints new_path = elim (convert_edges new_path) [
  | none ↦ []
  | some path ↦ if path_matches_constraints path constraints then path ∷ [] else []
]

-- An edge to a known token: passed over, a cycle, or a longer path.
unfoldable pub follow_to : PathConstraints → ℕ → Entry → Edge → ℕ → Found
follow_to constraints start entry edge target_token =
    let new_path = entry.path ++ edge.weight ∷ [] in
    if (not constraints.allow_self_cycle)
      && (contains target_token entry.tokens_seen && not (edge.target == start))
    then nothing_found
    else (if edge.target == start
        then record { entries = []; cycles = closed constraints new_path }
        else record {
          entries =
              record {
                node = edge.target;
                path = new_path;
                tokens_seen = target_token ∷ entry.tokens_seen;
              }
              ∷ [];
          cycles = [];
        })

abbrev pub follow_known : PathConstraints → ℕ → Entry → Edge → Option ℕ → Found
follow_known constraints start entry edge none = nothing_found
follow_known constraints start entry edge (some target_token) =
    follow_to constraints start entry edge target_token

unfoldable pub follow_edge : PoolGraph → PathConstraints → ℕ → Entry → Edge → Found
follow_edge g constraints start entry edge =
    follow_known constraints start entry edge (token_of g edge.target)

unfoldable pub follow_edges : PoolGraph → PathConstraints → ℕ → Entry → List Edge → Found
follow_edges g constraints start entry [] = nothing_found
follow_edges g constraints start entry (edge ∷ edges) =
    let first = follow_edge g constraints start entry edge in
    let rest = follow_edges g constraints start entry edges in
    record { entries = first.entries ++ rest.entries; cycles = first.cycles ++ rest.cycles }

-- What the entry at the head of the queue leads to.
unfoldable pub expand : PoolGraph → PathConstraints → ℕ → Entry → Found
expand g constraints start entry =
    if leb constraints.max_length (length entry.path)
    then nothing_found
    else follow_edges g constraints start entry (outgoing entry.node g.edges)

abbrev pub prepend : List ArbitragePath → Option (List ArbitragePath) → Option (List ArbitragePath)
prepend cycles none = none
prepend cycles (some later) = some (cycles ++ later)

-- `while let Some(..) = queue.pop_front()`, on fuel.
unfoldable pub drain_queue :
    ℕ → PoolGraph → PathConstraints → ℕ → List Entry → Option (List ArbitragePath)
drain_queue fuel g constraints start [] = some []
drain_queue zero g constraints start (entry ∷ queue) = none
drain_queue (suc fuel) g constraints start (entry ∷ queue) =
    let found = expand g constraints start entry in
    prepend found.cycles (drain_queue fuel g constraints start (queue ++ found.entries))

-- What an entry with `left` more edges may cost in rounds of the loop, in a graph of `edge_count`.
abbrev pub cost : (edge_count left : ℕ) → ℕ
cost edge_count zero = 1
cost edge_count (suc left) = 1 + edge_count * cost edge_count left

abbrev pub cycles_from_token :
    PathConstraints → PoolGraph → ℕ → Option ℕ → Option (List ArbitragePath)
cycles_from_token constraints g start none = some []
cycles_from_token constraints g start (some start_token) =
    if is_token constraints.required_start_token (some start_token)
    then drain_queue (cost (length g.edges) constraints.max_length) g constraints start
        (record { node = start; path = []; tokens_seen = start_token ∷ [] } ∷ [])
    else some []

unfoldable pub cycles_from : PoolGraph → PathConstraints → ℕ → Option (List ArbitragePath)
cycles_from g constraints start = cycles_from_token constraints g start (token_of g start)

abbrev pub join_found :
    Option (List ArbitragePath) → Option (List ArbitragePath) → Option (List ArbitragePath)
join_found none later = none
join_found (some cycles) later = prepend cycles later

-- The starts below `count`, in order.
unfoldable pub cycles_below : PoolGraph → PathConstraints → ℕ → Option (List ArbitragePath)
cycles_below g constraints zero = some []
cycles_below g constraints (suc count) =
    join_found (cycles_below g constraints count) (cycles_from g constraints count)

abbrev pub hop_key : PathHop → EdgeKey
hop_key hop = record { pool = hop.pool_address; from = hop.token_in; to = hop.token_out }

abbrev pub same_hops : List PathHop → List PathHop → Bool
same_hops [] [] = true
same_hops [] (y ∷ ys) = false
same_hops (x ∷ xs) [] = false
same_hops (x ∷ xs) (y ∷ ys) = same_key (hop_key x) (hop_key y) && same_hops xs ys

abbrev pub seen_path : ArbitragePath → List ArbitragePath → Bool
seen_path path [] = false
seen_path path (p ∷ paths) = same_hops path.hops p.hops || seen_path path paths

-- `unique_by`: of the paths of the same hops the first one stays.
unfoldable pub unique_paths : (kept paths : List ArbitragePath) → List ArbitragePath
unique_paths kept [] = []
unique_paths kept (path ∷ paths) =
    if seen_path path kept then unique_paths kept paths else path ∷ unique_paths (path ∷ kept) paths

abbrev pub unique_found : Option (List ArbitragePath) → Option (List ArbitragePath)
unique_found none = none
unique_found (some paths) = some (unique_paths [] paths)

unfoldable pub find_cycles : PoolGraph → PathConstraints → Option (List ArbitragePath)
find_cycles g constraints = unique_found (cycles_below g constraints (length g.nodes))

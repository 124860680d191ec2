-- ===== src/Arbitrage/Misprices.antt =====
-- `find_two_pool_misprices` of src/arbitrage/pathfinder.rs.
pub mod Ends
use arbitrage_bot_v.Base.{
  ℕ, zero, suc, ◌&&◌, Option, some, none, List, [], ◌∷◌, ◌++◌, ◌==◌, if◌then◌else◌, length,
}
use arbitrage_bot_v.Arbitrage.Graph.{Edge, PoolGraph, outgoing}
use arbitrage_bot_v.Arbitrage.Optimizer.{ArbitragePath}
use arbitrage_bot_v.Arbitrage.PathFinder.{PathConstraints, closed, unique_paths}

-- The neighbours of a node against and along its edges, once for each edge.
abbrev pub incoming_neighbors : ℕ → List Edge → List ℕ
incoming_neighbors node [] = []
incoming_neighbors node (e ∷ es) =
    if e.target == node then e.source ∷ incoming_neighbors node es else incoming_neighbors node es

abbrev pub outgoing_neighbors : List Edge → List ℕ
outgoing_neighbors [] = []
outgoing_neighbors (e ∷ es) = e.target ∷ outgoing_neighbors es

-- The first edge from one node to another.
abbrev pub find_edge : ℕ → ℕ → List Edge → Option Edge
find_edge from to [] = none
find_edge from to (e ∷ es) =
    if (e.source == from) && (e.target == to) then some e else find_edge from to es

-- The path of two edges, where both were found.
abbrev pub joined_path : PathConstraints → Option Edge → Option Edge → List ArbitragePath
joined_path constraints none out_edge = []
joined_path constraints (some in_edge) none = []
joined_path constraints (some in_edge) (some out_edge) =
    closed constraints (in_edge.weight ∷ out_edge.weight ∷ [])

unfoldable pub misprice : PoolGraph → PathConstraints → ℕ → ℕ → ℕ → List ArbitragePath
misprice g constraints node in_neighbor out_neighbor =
    if in_neighbor == out_neighbor
    then []
    else joined_path constraints (find_edge in_neighbor node g.edges)
        (find_edge node out_neighbor g.edges)

unfoldable pub misprices_to : PoolGraph → PathConstraints → ℕ → ℕ → List ℕ → List ArbitragePath
misprices_to g constraints node in_neighbor [] = []
misprices_to g constraints node in_neighbor (out_neighbor ∷ outs) =
    misprice g constraints node in_neighbor out_neighbor
    ++ misprices_to g constraints node in_neighbor outs

unfoldable pub misprices_from :
    PoolGraph → PathConstraints → ℕ → List ℕ → List ℕ → List ArbitragePath
misprices_from g constraints node [] outs = []
misprices_from g constraints node (in_neighbor ∷ ins) outs =
    misprices_to g constraints node in_neighbor outs ++ misprices_from g constraints node ins outs

-- The nodes below `count`, in order.
unfoldable pub misprices_below : PoolGraph → PathConstraints → ℕ → List ArbitragePath
misprices_below g constraints zero = []
misprices_below g constraints (suc node) =
    misprices_below g constraints node
    ++ misprices_from g constraints node (incoming_neighbors node g.edges)
        (outgoing_neighbors (outgoing node g.edges))

unfoldable pub find_two_pool_misprices : PoolGraph → PathConstraints → List ArbitragePath
find_two_pool_misprices g constraints =
    unique_paths [] (misprices_below g constraints (length g.nodes))

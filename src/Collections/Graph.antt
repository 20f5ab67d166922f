-- ===== src/Collections/Graph.antt =====
-- lib/graph.go: a directed graph with the successors and the predecessors of each vertex.
pub mod Edges
pub mod Changes
pub mod Bfs
mod Tests
use pigpaxos.Prelude.{
  ℕ, zero, suc, ◌+◌, List, [], ◌∷◌, ◌++◌, Option, none, some, Bool, not, ◌&&◌, ◌||◌, ◌==◌,
  if◌then◌else◌, contains, length,
}
use pigpaxos.Prelude.Assoc.{lookup, insert, erase}
use pigpaxos.Collections.Set.{Set, add, has, remove}

-- `Graph`
pub record Graph : Type 0 where
  pub vertices : Set
  pub from : List (ℕ × Set)
  pub to : List (ℕ × Set)

-- `NewGraph`
abbrev pub new_graph : Graph
new_graph = record { vertices = []; from = []; to = [] }

-- `m[v]`, the nil set for a missing key
unfoldable pub set_at : ℕ → List (ℕ × Set) → Set
set_at v m = elim (lookup v m) [ none ↦ [] | some s ↦ s ]

-- `Add`
unfoldable pub add_vertex : ℕ → Graph → Graph
add_vertex v g =
    if has g.vertices v
    then g
    else record { vertices = add v g.vertices; from = insert v [] g.from; to = insert v [] g.to }

-- `m[u].Remove(v)`; nothing happens to a nil set
unfoldable pub remove_at : ℕ → ℕ → List (ℕ × Set) → List (ℕ × Set)
remove_at u v m = elim (lookup u m) [ none ↦ m | some s ↦ insert u (remove v s) m ]

-- the loop of `Remove` on one of the maps
unfoldable pub remove_each : ℕ → Set → List (ℕ × Set) → List (ℕ × Set)
remove_each v [] m = m
remove_each v (u ∷ us) m = remove_each v us (remove_at u v m)

-- `Remove`
unfoldable pub remove_vertex : ℕ → Graph → Graph
remove_vertex v g = if not (has g.vertices v) then g else record {
  vertices = remove v g.vertices;
  from = erase v (remove_each v (remove v g.vertices) g.from);
  to = erase v (remove_each v (remove v g.vertices) g.to);
}

-- the two writes of `AddEdge`
unfoldable pub link : ℕ → ℕ → Graph → Graph
link a b g = record g {
  from = insert a (add b (set_at a g.from)) g.from;
  to = insert b (add a (set_at b g.to)) g.to;
}

-- `AddEdge`; `none` is the panic of a self edge
unfoldable pub add_edge : ℕ → ℕ → Graph → Option Graph
add_edge a b g = if a == b then none else some (link a b (add_vertex b (add_vertex a g)))

-- `RemoveEdge`
unfoldable pub remove_edge : ℕ → ℕ → Graph → Graph
remove_edge a b g =
    if not (has g.vertices a) || not (has g.vertices b)
    then g
    else record g { from = remove_at a b g.from; to = remove_at b a g.to }

-- the inner loop of `BFS` over the neighbours: the vertices visited and the queue
unfoldable pub enqueue : Set → List ℕ → List ℕ → List ℕ × List ℕ
enqueue [] visited queue = (visited, queue)
enqueue (t ∷ ts) visited queue =
    enqueue ts (if contains visited t then visited else t ∷ visited)
      (if contains visited t then queue else queue ++ t ∷ [])

-- the loop of `BFS` and `BFSReverse`, over at most `fuel` vertices
unfoldable pub bfs_loop : ℕ → List (ℕ × Set) → List ℕ → List ℕ → List ℕ → List ℕ
bfs_loop zero next visited queue result = result
bfs_loop (suc fuel) next visited [] result = result
bfs_loop (suc fuel) next visited (s ∷ queue) result =
    let (visited', queue') = enqueue (set_at s next) visited queue in
    bfs_loop fuel next visited' queue' (result ++ s ∷ [])

-- `BFS`: no vertex is visited twice, so there are at most as many rounds as vertices, and one more for
-- a source that is no vertex.
unfoldable pub bfs : Graph → ℕ → List ℕ
bfs g v = bfs_loop (length g.vertices + 1) g.from (v ∷ []) (v ∷ []) []

-- `BFSReverse`
unfoldable pub bfs_reverse : Graph → ℕ → List ℕ
bfs_reverse g v = bfs_loop (length g.vertices + 1) g.to (v ∷ []) (v ∷ []) []

-- ===== src/Collections/Graph/Tests.antt =====
-- A graph on concrete vertices.
use pigpaxos.Prelude.{ℕ, ◌≡◌, refl, List, [], ◌∷◌, none, some, true, contains, IsNodup}
use pigpaxos.Prelude.Assoc.{lookup, insert, erase}
use pigpaxos.Collections.Set.{add, remove}
use pigpaxos.Collections.Graph.{
  Graph, new_graph, set_at, add_vertex, remove_at, remove_each, remove_vertex, link, add_edge,
  remove_edge, enqueue, bfs_loop, bfs, bfs_reverse,
}
use pigpaxos.Collections.Graph.Changes.{Change, adds, removes, links, unlinks, change, changes}
use pigpaxos.Collections.Graph.Bfs.{Reaches, Found, bfs_lem}

abbrev made_by : List Change
made_by = links 1 2 ∷ links 2 3 ∷ adds 5 ∷ links 3 5 ∷ removes 5 ∷ links 1 3 ∷ unlinks 1 3 ∷ []

unfoldable made : Graph
unfolding changes change add_vertex add_edge link remove_vertex remove_each remove_at remove_edge
    set_at add remove lookup insert erase
made = elim (changes made_by new_graph) [ none ↦ new_graph | some g ↦ g ]

made_step : changes made_by new_graph ≡ some made
unfolding made
made_step = refl

found_from_one : bfs made 1 ≡ 1 ∷ 2 ∷ 3 ∷ []
unfolding made bfs bfs_loop enqueue
found_from_one = refl

self_edge : changes (links 4 4 ∷ []) new_graph ≡ none
unfolding made
self_edge = refl

bfs_lem_example :
    Found made.from 1 (bfs made 1)
    × IsNodup (bfs_reverse made 1)
    × ((x : ℕ) → contains (bfs_reverse made 1) x ≡ true → Reaches made.from x 1)
    × ((x : ℕ) → Reaches made.from x 1 → contains (bfs_reverse made 1) x ≡ true)
bfs_lem_example = bfs_lem made_by made 1 made_step

-- ===== src/Collections/Graph/Bfs.antt =====
-- The breadth-first search finds each reachable vertex once.
use mathlib.Core.Path.{subst}
use mathlib.Core.List.{append_assoc, append-nil}
use pigpaxos.Prelude.{
  ℕ, zero, suc, ◌+◌, ◌≤◌, ◌≡◌, refl, ap, ap₂, sym, ◌∙◌, List, [], ◌∷◌, ◌++◌, some, true, false,
  ◌||◌, ◌==◌, contains, IsNodup, length, length-append, length-le-length, arith, inl, inr,
  Bool-cases,
}
use pigpaxos.Collections.Set.{Set, has}
use pigpaxos.Collections.Graph.{Graph, new_graph, set_at, enqueue, bfs_loop, bfs, bfs_reverse}
use pigpaxos.Collections.Graph.Edges.{leads_to}
use pigpaxos.Collections.Graph.Changes.{Change, changes, new_graph-IsValid, changes-IsValid}

-- `b` can be reached from `a` along the map.
pub data Reaches (next : List (ℕ × Set)) (a : ℕ) : ℕ → Type 0 where
  here : Reaches next a a
  onward : {b c : ℕ} → Reaches next a b → leads_to next b c ≡ true → Reaches next a c

contains-append :
    (xs ys : List ℕ) (x : ℕ) → contains (xs ++ ys) x ≡ (contains xs x || contains ys x)
contains-append [] ys x = refl
contains-append (y ∷ xs) ys x = ground (arith, contains-append xs ys x)

append-IsNodup : (xs : List ℕ) (t : ℕ) → IsNodup xs → contains xs t ≡ false → IsNodup (xs ++ t ∷ [])
append-IsNodup [] t d h = (refl, tt)
append-IsNodup (x ∷ xs) t d h = (
  ground (arith, contains-append xs (t ∷ []) x, h, d.0),
  append-IsNodup xs t d.1 (ground (arith, h)),
)

-- The visited vertices are those in the result and the queue, each once.
record Tracks (visited all : List ℕ) : Type 0 where
  marked : (x : ℕ) → contains visited x ≡ contains all x
  once : IsNodup all

enqueue_old :
    (t : ℕ) (ts visited queue : List ℕ)
    → contains visited t ≡ true
    → enqueue (t ∷ ts) visited queue ≡ enqueue ts visited queue
unfolding enqueue
enqueue_old t ts visited queue h = ap₂ (enqueue ts) (ground arith) (ground arith)

enqueue_new :
    (t : ℕ) (ts visited queue : List ℕ)
    → contains visited t ≡ false
    → enqueue (t ∷ ts) visited queue ≡ enqueue ts (t ∷ visited) (queue ++ t ∷ [])
unfolding enqueue
enqueue_new t ts visited queue h = ap₂ (enqueue ts) (ground arith) (ground arith)

enqueue_nil : (visited queue : List ℕ) → enqueue [] visited queue ≡ (visited, queue)
unfolding enqueue
enqueue_nil visited queue = refl

enqueue_lem :
    (ts visited queue front : List ℕ)
    → Tracks visited (front ++ queue)
    → Tracks (enqueue ts visited queue).0 (front ++ (enqueue ts visited queue).1)
      × ((x : ℕ) → contains (enqueue ts visited queue).0 x ≡ (contains visited x || contains ts x))
enqueue_lem [] visited queue front v = rw (enqueue_nil visited queue) (v, λ x. ground arith)
enqueue_lem (t ∷ ts) visited queue front v = elim (Bool-cases (contains visited t)) [
  | inl seen ↦
      let (w, grown) = enqueue_lem ts visited queue front v in
      rw (enqueue_old t ts visited queue seen) (
        w,
        λ x. elim (Bool-cases (t == x)) [
          | inl same ↦
              let at : t ≡ x = ground arith in
              ground (arith, grown x, ap (contains visited) at, seen)
          | inr other ↦ ground (arith, grown x, other)
        ],
      )
  | inr new ↦
      let all : front ++ (queue ++ t ∷ []) ≡ (front ++ queue) ++ t ∷ [] =
        sym (append_assoc front queue (t ∷ [])) in
      let v' : Tracks (t ∷ visited) (front ++ (queue ++ t ∷ [])) = rw all (record {
        marked = λ x. ground (arith, v.marked x, contains-append (front ++ queue) (t ∷ []) x);
        once = append-IsNodup (front ++ queue) t v.once (sym (v.marked t) ∙ new);
      }) in
      let (w, grown) = enqueue_lem ts (t ∷ visited) (queue ++ t ∷ []) front v' in
      rw (enqueue_new t ts visited queue new) (w, λ x. ground (arith, grown x))
]

-- What holds at the head of the loop of a search from `a` that stays within `bound`.
record Searching (next : List (ℕ × Set)) (a : ℕ) (bound visited queue result : List ℕ)
    : Type 0 where
  tracks : Tracks visited (result ++ queue)
  sound : (x : ℕ) → contains visited x ≡ true → Reaches next a x
  closed :
      (s t : ℕ) → contains result s ≡ true → leads_to next s t ≡ true → contains visited t ≡ true
  source : contains visited a ≡ true
  inside : (x : ℕ) → contains visited x ≡ true → contains bound x ≡ true

-- The result lists what can be reached, each vertex once.
pub record Found (next : List (ℕ × Set)) (a : ℕ) (result : List ℕ) : Type 0 where
  pub once : IsNodup result
  pub sound : (x : ℕ) → contains result x ≡ true → Reaches next a x
  pub complete : (x : ℕ) → Reaches next a x → contains result x ≡ true

module _ (next : List (ℕ × Set)) (a : ℕ) (bound : List ℕ) where
  Searching-Found :
      (visited result : List ℕ) → Searching next a bound visited [] result → Found next a result
  Searching-Found visited result v =
      let all : result ++ [] ≡ result = append-nil result in
      let same : (x : ℕ) → contains visited x ≡ contains result x =
        λ x. v.tracks.marked x ∙ ap (λ (xs : List ℕ). contains xs x) all in
      record {
        once = rw all at v.tracks.once;
        sound = λ x h. v.sound x (same x ∙ h);
        complete = λ x r. reached same x r;
      }
    where
      reached :
          ((x : ℕ) → contains visited x ≡ contains result x)
          → (x : ℕ) → Reaches next a x
          → contains result x ≡ true
      reached same x here = sym (same a) ∙ v.source
      reached same x (onward {b} {c} before edge) =
          sym (same c) ∙ v.closed b c (reached same b before) edge

  search_step :
      (s : ℕ) (visited queue result : List ℕ)
      → ((x y : ℕ) → contains bound x ≡ true → leads_to next x y ≡ true → contains bound y ≡ true)
      → Searching next a bound visited (s ∷ queue) result
      → Searching next a bound
          (enqueue (set_at s next) visited queue).0
          (enqueue (set_at s next) visited queue).1
          (result ++ s ∷ [])
  search_step s visited queue result stays v =
      let all : (result ++ s ∷ []) ++ queue ≡ result ++ s ∷ queue =
        append_assoc result (s ∷ []) queue in
      let moved : Tracks visited ((result ++ s ∷ []) ++ queue) = rw all v.tracks in
      let (w, grown) = enqueue_lem (set_at s next) visited queue (result ++ s ∷ []) moved in
      let seen : contains visited s ≡ true =
        ground (arith, v.tracks.marked s, contains-append result (s ∷ queue) s) in
      record {
        tracks = w;
        sound = λ x h. elim (Bool-cases (contains visited x)) [
          | inl old ↦ v.sound x old
          | inr new ↦ onward (v.sound s seen) (ground (arith, grown x, h, new))
        ];
        closed = λ x y h edge. elim (Bool-cases (s == x)) [
          | inl same ↦
              let at : s ≡ x = ground arith in
              ground (arith, grown y, ap (λ (k : ℕ). leads_to next k y) at, edge)
          | inr other ↦
              let old =
                v.closed x y (ground (arith, h, contains-append result (s ∷ []) x, other)) edge in
              ground (arith, grown y, old)
        ];
        source = ground (arith, grown a, v.source);
        inside = λ x h. elim (Bool-cases (contains visited x)) [
          | inl old ↦ v.inside x old
          | inr new ↦ stays s x (v.inside s seen) (ground (arith, grown x, h, new))
        ];
      }

  bfs_loop_lem :
      (fuel : ℕ) (visited queue result : List ℕ)
      → ((x y : ℕ) → contains bound x ≡ true → leads_to next x y ≡ true → contains bound y ≡ true)
      → length bound ≤ length result + fuel
      → Searching next a bound visited queue result
      → Found next a (bfs_loop fuel next visited queue result)
  unfolding bfs_loop
  bfs_loop_lem zero visited [] result stays h v = Searching-Found visited result v
  bfs_loop_lem zero visited (s ∷ queue) result stays h v =
      let few =
        length-le-length (result ++ s ∷ queue) bound v.tracks.once
          (λ x k. v.inside x (v.tracks.marked x ∙ k)) in
      absurd (omega (arith, few, length-append result (s ∷ queue), h))
  bfs_loop_lem (suc fuel) visited [] result stays h v = Searching-Found visited result v
  bfs_loop_lem (suc fuel) visited (s ∷ queue) result stays h v =
      bfs_loop_lem fuel _ _ (result ++ s ∷ []) stays
        (omega (arith, length-append result (s ∷ []), h))
        (search_step s visited queue result stays v)

-- A search of a valid graph, which needs no more rounds than it is given.
search :
    (next : List (ℕ × Set)) (vertices : Set) (a : ℕ)
    → ((x y : ℕ) → leads_to next x y ≡ true → has vertices y ≡ true)
    → Found next a (bfs_loop (length vertices + 1) next (a ∷ []) (a ∷ []) [])
search next vertices a stays =
    bfs_loop_lem next a (a ∷ vertices) (length vertices + 1) (a ∷ []) (a ∷ []) []
      (λ x y _ edge. ground (arith, stays x y edge)) (omega arith)
      (record {
        tracks = record { marked = λ x. refl; once = (refl, tt) };
        sound = λ x h. from_here x (ground (arith, h));
        closed = λ s t h edge. cc;
        source = ground arith;
        inside = λ x h. ground (arith, h);
      })
  where
    from_here : (x : ℕ) → a ≡ x → Reaches next a x
    from_here x h = subst (Reaches next a) h here

Reaches-prepend :
    {next : List (ℕ × Set)} {b c : ℕ} (a : ℕ)
    → leads_to next a b ≡ true
    → Reaches next b c
    → Reaches next a c
Reaches-prepend a edge here = onward here edge
Reaches-prepend a edge (onward before last) = onward (Reaches-prepend a edge before) last

reverse-Reaches :
    (m n : List (ℕ × Set)) (a b : ℕ)
    → ((x y : ℕ) → leads_to m x y ≡ leads_to n y x)
    → Reaches m a b
    → Reaches n b a
reverse-Reaches m n a b h here = here
reverse-Reaches m n a b h (onward {b = d} before edge) =
    Reaches-prepend b (sym (h d b) ∙ edge) (reverse-Reaches m n a d h before)

-- On a graph that any run of Add, Remove, AddEdge and RemoveEdge has made of a new one, BFS ends, and
-- lists exactly the vertices that can be reached from its source, each once; BFSReverse ends, and lists
-- exactly the vertices from which its source can be reached, each once.
pub bfs_lem :
    (es : List Change) (g : Graph) (a : ℕ)
    → changes es new_graph ≡ some g
    → Found g.from a (bfs g a)
      × IsNodup (bfs_reverse g a)
      × ((x : ℕ) → contains (bfs_reverse g a) x ≡ true → Reaches g.from x a)
      × ((x : ℕ) → Reaches g.from x a → contains (bfs_reverse g a) x ≡ true)
unfolding bfs bfs_reverse
bfs_lem es g a made =
    let v = changes-IsValid es new_graph g new_graph-IsValid made in
    let back = search g.to g.vertices a (λ x y edge. v.source y x (v.converse y x ∙ edge)) in
    (
      search g.from g.vertices a v.target,
      back.once,
      λ x h. reverse-Reaches g.to g.from a x (λ b c. sym (v.converse c b)) (back.sound x h),
      λ x r. back.complete x (reverse-Reaches g.from g.to x a v.converse r),
    )

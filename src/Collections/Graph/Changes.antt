-- ===== src/Collections/Graph/Changes.antt =====
-- The operations of a graph keep its two maps converse to each other.
use pigpaxos.Prelude.{
  ℕ, ◌≡◌, refl, ap, sym, ◌∙◌, List, [], ◌∷◌, Option, none, some, Bool, true, false, not, ◌&&◌, ◌||◌,
  ◌==◌, arith, inl, inr, Bool-cases, Option-cases, some_inj,
}
use pigpaxos.Prelude.Assoc.{lookup, erase}
use pigpaxos.Collections.Set.{add, has, remove, has-add, has-remove}
use pigpaxos.Collections.Graph.{
  Graph, new_graph, set_at, add_vertex, remove_each, remove_vertex, link, add_edge, remove_edge,
}
use pigpaxos.Collections.Graph.Edges.{
  leads_to, IsValid, leads_to-remove_at, leads_to-remove_each, leads_to-insert_empty,
  leads_to-insert-add, leads_to-erase,
}

pub new_graph-IsValid : IsValid new_graph
unfolding set_at lookup
new_graph-IsValid = record { converse = λ a b. refl; source = λ a b h. cc; target = λ a b h. cc }

-- Without an edge at a vertex that is not there.
absent : (g : Graph) (a b : ℕ) → IsValid g → has g.vertices a ≡ false → leads_to g.from a b ≡ false
absent g a b v h = elim (Bool-cases (leads_to g.from a b)) [
  | inl edge ↦ cc (sym h ∙ v.source a b edge)
  | inr none_there ↦ none_there
]

absent_target :
    (g : Graph) (a b : ℕ) → IsValid g → has g.vertices b ≡ false → leads_to g.from a b ≡ false
absent_target g a b v h = elim (Bool-cases (leads_to g.from a b)) [
  | inl edge ↦ cc (sym h ∙ v.target a b edge)
  | inr none_there ↦ none_there
]

pub add_vertex-IsValid : (v : ℕ) (g : Graph) → IsValid g → IsValid (add_vertex v g)
unfolding add_vertex
add_vertex-IsValid v g w = elim (Bool-cases (has g.vertices v)) [
  | inl there ↦ rw there w
  | inr new ↦ rw new (record {
    converse = λ a b. ground (
      arith,
      leads_to-insert_empty v a b g.from,
      leads_to-insert_empty v b a g.to,
      w.converse a b,
      absent g v b w new,
      absent_target g a v w new,
    );
    source = λ a b h.
        ground (arith, leads_to-insert_empty v a b g.from, h, w.source a b, has-add v a g.vertices);
    target = λ a b h.
        ground (arith, leads_to-insert_empty v a b g.from, h, w.target a b, has-add v b g.vertices);
  })
]

pub link-IsValid :
    (a b : ℕ) (g : Graph)
    → has g.vertices a ≡ true
    → has g.vertices b ≡ true
    → IsValid g
    → IsValid (link a b g)
unfolding link
link-IsValid a b g ha hb w = record {
  converse = λ x y.
      ground (
        arith,
        leads_to-insert-add a b x y g.from,
        leads_to-insert-add b a y x g.to,
        w.converse x y,
      );
  source = λ x y h.
      let at : (a == x) ≡ true → has g.vertices x ≡ true =
        λ e. ap (has g.vertices) (sym (ground (arith, e))) ∙ ha in
      ground (arith, leads_to-insert-add a b x y g.from, h, w.source x y, at);
  target = λ x y h.
      let at : (b == y) ≡ true → has g.vertices y ≡ true =
        λ e. ap (has g.vertices) (sym (ground (arith, e))) ∙ hb in
      ground (arith, leads_to-insert-add a b x y g.from, h, w.target x y, at);
}

vertices-add_vertex :
    (v x : ℕ) (g : Graph) → has (add_vertex v g).vertices x ≡ (v == x || has g.vertices x)
unfolding add_vertex add
vertices-add_vertex v x g = elim (Bool-cases (v == x)) [
  | inl same ↦ let at : v ≡ x = ground arith in ground (arith, ap (has g.vertices) at)
  | inr other ↦ ground arith
]

remove_edge-IsValid : (a b : ℕ) (g : Graph) → IsValid g → IsValid (remove_edge a b g)
unfolding remove_edge
remove_edge-IsValid a b g w = elim (Bool-cases (not (has g.vertices a) || not (has g.vertices b))) [
  | inl missing ↦ rw missing w
  | inr there ↦ rw there (record {
    converse = λ x y.
        ground (
          arith,
          leads_to-remove_at a b x y g.from,
          leads_to-remove_at b a y x g.to,
          w.converse x y,
        );
    source = λ x y h. w.source x y (ground (arith, leads_to-remove_at a b x y g.from, h));
    target = λ x y h. w.target x y (ground (arith, leads_to-remove_at a b x y g.from, h));
  })
]

remove_vertex-IsValid : (v : ℕ) (g : Graph) → IsValid g → IsValid (remove_vertex v g)
unfolding remove_vertex
remove_vertex-IsValid v g w = elim (Bool-cases (not (has g.vertices v))) [
  | inl missing ↦ rw missing w
  | inr there ↦
      let us = remove v g.vertices in
      let from : (a b : ℕ)
          → leads_to (erase v (remove_each v us g.from)) a b
            ≡ (not (v == a) && (leads_to g.from a b && not (has us a && v == b))) =
        λ a b.
          leads_to-erase v a b (remove_each v us g.from)
          ∙ ap (λ (t : Bool). not (v == a) && t) (leads_to-remove_each v a b us g.from) in
      let to : (a b : ℕ)
          → leads_to (erase v (remove_each v us g.to)) b a
            ≡ (not (v == b) && (leads_to g.to b a && not (has us b && v == a))) =
        λ a b.
          leads_to-erase v b a (remove_each v us g.to)
          ∙ ap (λ (t : Bool). not (v == b) && t) (leads_to-remove_each v b a us g.to) in
      rw there (record {
        converse = λ a b. ground (
          arith,
          from a b,
          to a b,
          w.converse a b,
          w.source a b,
          w.target a b,
          has-remove v a g.vertices,
          has-remove v b g.vertices,
        );
        source = λ a b h. ground (arith, from a b, h, w.source a b, has-remove v a g.vertices);
        target = λ a b h. ground (
          arith,
          from a b,
          h,
          w.source a b,
          w.target a b,
          has-remove v a g.vertices,
          has-remove v b g.vertices,
        );
      })
]

-- A call of the graph.
pub data Change : Type 0 where
  adds : ℕ → Change
  removes : ℕ → Change
  links : ℕ → ℕ → Change
  unlinks : ℕ → ℕ → Change

-- `none` is the panic of a self edge.
unfoldable pub change : Change → Graph → Option Graph
change (adds v) g = some (add_vertex v g)
change (removes v) g = some (remove_vertex v g)
change (links a b) g = add_edge a b g
change (unlinks a b) g = some (remove_edge a b g)

-- Each call that does not panic keeps the two maps of a graph converse to each other, with edges
-- between vertices only; and only a self edge panics.
change-IsValid :
    (e : Change) (g : Graph)
    → IsValid g
    → ((h : Graph) → change e g ≡ some h → IsValid h)
      × (change e g ≡ none → (a : ℕ) × (e ≡ links a a))
unfolding change add_edge
change-IsValid (adds v) g w = (λ h e. rw (some_inj e) at (add_vertex-IsValid v g w), λ e. cc)
change-IsValid (removes v) g w = (λ h e. rw (some_inj e) at (remove_vertex-IsValid v g w), λ e. cc)
change-IsValid (unlinks a b) g w =
    (λ h e. rw (some_inj e) at (remove_edge-IsValid a b g w), λ e. cc)
change-IsValid (links a b) g w = elim (Bool-cases (a == b)) [
  | inl same ↦ rw same (λ h e. cc, λ e. (a, ap (links a) (sym (ground (arith, same)))))
  | inr other ↦
      let g' = add_vertex b (add_vertex a g) in
      let w' = add_vertex-IsValid b (add_vertex a g) (add_vertex-IsValid a g w) in
      let from : has g'.vertices a ≡ true =
        ground (arith, vertices-add_vertex b a (add_vertex a g), vertices-add_vertex a a g) in
      let to : has g'.vertices b ≡ true =
        ground (arith, vertices-add_vertex b b (add_vertex a g)) in
      rw other (λ h e. rw (some_inj e) at (link-IsValid a b g' from to w'), λ e. cc)
]

-- A run of calls; `none` when one of them panics.
unfoldable pub changes : List Change → Graph → Option Graph
changes [] g = some g
changes (e ∷ es) g = elim (change e g) [ none ↦ none | some h ↦ changes es h ]

pub changes-IsValid :
    (es : List Change) (g h : Graph) → IsValid g → changes es g ≡ some h → IsValid h
unfolding changes
changes-IsValid [] g h v eq = rw (some_inj eq) at v
changes-IsValid (e ∷ es) g h v eq = elim (Option-cases (change e g)) [
  | inl panics ↦
      let run : changes (e ∷ es) g ≡ none = rw (panics, changes) refl in cc (sym run ∙ eq)
  | inr (k, goes) ↦
      let run : changes (e ∷ es) g ≡ changes es k = rw (goes, changes) refl in
      changes-IsValid es k h ((change-IsValid e g v).0 k goes) (sym run ∙ eq)
]

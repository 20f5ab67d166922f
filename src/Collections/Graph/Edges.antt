-- ===== src/Collections/Graph/Edges.antt =====
-- The edges in one map of a graph after each operation on the map.
use pigpaxos.Prelude.{
  ℕ, ◌≡◌, refl, ap, sym, ◌∙◌, List, [], ◌∷◌, none, some, Bool, true, not, ◌&&◌, ◌||◌, ◌==◌,
  if◌then◌else◌, arith, inl, inr, Bool-cases, Option-cases,
}
use pigpaxos.Prelude.Assoc.{lookup, insert, erase, lookup-insert, lookup-erase}
use pigpaxos.Collections.Set.{Set, add, has, remove, has-add, has-remove}
use pigpaxos.Collections.Graph.{Graph, set_at, remove_at, remove_each}

-- `t` is a successor of `s` in the map.
abbrev pub leads_to : List (ℕ × Set) → ℕ → ℕ → Bool
leads_to m s t = has (set_at s m) t

-- An edge is in both maps, between vertices.
pub record IsValid (g : Graph) : Type 0 where
  pub converse : (a b : ℕ) → leads_to g.from a b ≡ leads_to g.to b a
  pub source : (a b : ℕ) → leads_to g.from a b ≡ true → has g.vertices a ≡ true
  pub target : (a b : ℕ) → leads_to g.from a b ≡ true → has g.vertices b ≡ true

set_at-insert :
    (k j : ℕ) (s : Set) (m : List (ℕ × Set))
    → set_at j (insert k s m) ≡ (if k == j then s else set_at j m)
unfolding set_at
set_at-insert k j s m = ground (arith, lookup-insert k j s m)

set_at-erase :
    (k j : ℕ) (m : List (ℕ × Set)) → set_at j (erase k m) ≡ (if k == j then [] else set_at j m)
unfolding set_at
set_at-erase k j m = ground (arith, lookup-erase k j m)

set_at_of_lookup : (k : ℕ) (s : Set) (m : List (ℕ × Set)) → lookup k m ≡ some s → set_at k m ≡ s
unfolding set_at
set_at_of_lookup k s m h = rw (h, set_at) refl

set_at_of_none : (k : ℕ) (m : List (ℕ × Set)) → lookup k m ≡ none → set_at k m ≡ []
unfolding set_at
set_at_of_none k m h = rw (h, set_at) refl

remove-nil : (v : ℕ) → remove v [] ≡ []
unfolding remove
remove-nil v = refl

set_at-remove_at :
    (u v a : ℕ) (m : List (ℕ × Set))
    → set_at a (remove_at u v m) ≡ (if u == a then remove v (set_at a m) else set_at a m)
unfolding remove_at
set_at-remove_at u v a m = elim (Option-cases (lookup u m)) [
  | inl nothing ↦
      rw (nothing, remove_at)
        (elim (Bool-cases (u == a)) [
          | inl same ↦
              let at : u ≡ a = ground arith in
              let empty : set_at a m ≡ [] =
                set_at_of_none a m (ap (λ (k : ℕ). lookup k m) (sym at) ∙ nothing) in
              rw same (rw empty (sym (remove-nil v)))
          | inr other ↦ rw other refl
        ])
  | inr (s, has_set) ↦
      rw (has_set, remove_at)
        (elim (Bool-cases (u == a)) [
          | inl same ↦
              let at : u ≡ a = ground arith in
              let set : set_at a m ≡ s =
                set_at_of_lookup a s m (ap (λ (k : ℕ). lookup k m) (sym at) ∙ has_set) in
              rw same (ground (arith, set_at-insert u a (remove v s) m) ∙ ap (remove v) (sym set))
          | inr other ↦ rw other (ground (arith, set_at-insert u a (remove v s) m))
        ])
]

pub leads_to-remove_at :
    (u v a b : ℕ) (m : List (ℕ × Set))
    → leads_to (remove_at u v m) a b ≡ (leads_to m a b && not (u == a && v == b))
leads_to-remove_at u v a b m = ground (arith, set_at-remove_at u v a m, has-remove v b (set_at a m))

pub leads_to-remove_each :
    (v a b : ℕ) (us : Set) (m : List (ℕ × Set))
    → leads_to (remove_each v us m) a b ≡ (leads_to m a b && not (has us a && v == b))
unfolding remove_each
leads_to-remove_each v a b [] m = ground arith
leads_to-remove_each v a b (u ∷ us) m =
    ground (arith, leads_to-remove_each v a b us (remove_at u v m), leads_to-remove_at u v a b m)

-- What the operations do to the edges of one of the maps.
pub leads_to-insert_empty :
    (v a b : ℕ) (m : List (ℕ × Set))
    → leads_to (insert v [] m) a b ≡ (not (v == a) && leads_to m a b)
leads_to-insert_empty v a b m = ground (arith, set_at-insert v a [] m)

pub leads_to-insert-add :
    (u v a b : ℕ) (m : List (ℕ × Set))
    → leads_to (insert u (add v (set_at u m)) m) a b ≡ ((u == a && v == b) || leads_to m a b)
leads_to-insert-add u v a b m = elim (Bool-cases (u == a)) [
  | inl same ↦
      let at : u ≡ a = ground arith in
      ground (
        arith,
        set_at-insert u a (add v (set_at u m)) m,
        has-add v b (set_at u m),
        ap (λ (k : ℕ). has (set_at k m) b) at,
      )
  | inr other ↦ ground (arith, set_at-insert u a (add v (set_at u m)) m)
]

pub leads_to-erase :
    (v a b : ℕ) (m : List (ℕ × Set)) → leads_to (erase v m) a b ≡ (not (v == a) && leads_to m a b)
leads_to-erase v a b m = ground (arith, set_at-erase v a m)

-- ===== src/Relay/Groups/Partition.antt =====
-- `peersToGroups` cuts the nodes into consecutive groups.
use pigpaxos.Prelude.{
  ℕ, zero, suc, ◌+◌, ◌/◌, ◌<◌, ◌≡◌, refl, List, [], ◌∷◌, ◌++◌, true, false, arith, length,
  replicate, drop, Bool, if◌then◌else◌, ◌∙◌, sym, ap, ltb, leb, ◌&&◌,
}
use mathlib.Core.List.{append-nil, append_assoc}
use pigpaxos.Relay.Groups.{Grouping, append_at, group_one, group_all, peers_to_groups}

-- All nodes of the groups, in order.
abbrev pub flatten : List (List ℕ) → List ℕ
flatten [] = []
flatten (g ∷ gs) = g ++ flatten gs

-- The loop has not come to the groups behind the current one.
record Filling (num_groups : ℕ) (seen : List ℕ) (x : Grouping) : Type 0 where
  size : length x.groups ≡ num_groups
  current : x.pg_num < num_groups
  all : flatten x.groups ≡ seen
  rest : flatten (drop (suc x.pg_num) x.groups) ≡ []

length-append_at : (k id : ℕ) (gs : List (List ℕ)) → length (append_at k id gs) ≡ length gs
unfolding append_at
length-append_at k id [] = refl
length-append_at zero id (g ∷ gs) = refl
length-append_at (suc k) id (g ∷ gs) = ap suc (length-append_at k id gs)

drop-append_at :
    (k id : ℕ) (gs : List (List ℕ)) → drop (suc k) (append_at k id gs) ≡ drop (suc k) gs
unfolding append_at
drop-append_at k id [] = refl
drop-append_at zero id (g ∷ gs) = refl
drop-append_at (suc k) id (g ∷ gs) = drop-append_at k id gs

flatten-append_at :
    (k id : ℕ) (gs : List (List ℕ))
    → k < length gs
    → flatten (drop (suc k) gs) ≡ []
    → flatten (append_at k id gs) ≡ flatten gs ++ id ∷ []
unfolding append_at
flatten-append_at k id [] h e = absurd (omega arith)
flatten-append_at zero id (g ∷ gs) h e = simp (e, append-nil)
flatten-append_at (suc k) id (g ∷ gs) h e =
    ap (λ (t : List ℕ). g ++ t) (flatten-append_at k id gs (omega arith) e)
    ∙ sym (append_assoc g (flatten gs) (id ∷ []))

flatten_nil_tail : (g : List ℕ) (gs : List (List ℕ)) → flatten (g ∷ gs) ≡ [] → flatten gs ≡ []
flatten_nil_tail [] gs h = h
flatten_nil_tail (x ∷ g) gs h = cc

rest_stays_empty :
    (k : ℕ) (gs : List (List ℕ)) → flatten (drop k gs) ≡ [] → flatten (drop (suc k) gs) ≡ []
rest_stays_empty zero [] h = h
rest_stays_empty (suc k) [] h = h
rest_stays_empty zero (g ∷ gs) h = flatten_nil_tail g gs h
rest_stays_empty (suc k) (g ∷ gs) h = rest_stays_empty k gs h

rest_empty_anyway :
    (t : Bool) (k : ℕ) (gs : List (List ℕ))
    → flatten (drop (suc k) gs) ≡ []
    → flatten (drop (suc (if t then k + 1 else k)) gs) ≡ []
rest_empty_anyway true k gs h = rw next (rest_stays_empty (suc k) gs h)
  where
    next : k + 1 ≡ suc k
    next = omega arith
rest_empty_anyway false k gs h = h

group_one-Filling :
    (self per num_groups id : ℕ) (seen : List ℕ) (x : Grouping)
    → Filling num_groups seen x
    → Filling num_groups (seen ++ id ∷ []) (group_one self per num_groups id x)
unfolding group_one
group_one-Filling self per num_groups id seen x v = record {
  size = length-append_at x.pg_num id x.groups ∙ v.size;
  current = ground (arith, v.current);
  all =
      flatten-append_at x.pg_num id x.groups (omega (arith, v.current, v.size)) v.rest
      ∙ ap (λ (t : List ℕ). t ++ id ∷ []) v.all;
  rest =
      rest_empty_anyway (leb per (x.added + 1) && ltb (x.pg_num + 1) num_groups) x.pg_num
        (append_at x.pg_num id x.groups)
        (ap flatten (drop-append_at x.pg_num id x.groups) ∙ v.rest);
}

group_all-Filling :
    (self per num_groups : ℕ) (ids seen : List ℕ) (x : Grouping)
    → Filling num_groups seen x
    → Filling num_groups (seen ++ ids) (group_all self per num_groups ids x)
unfolding group_all
group_all-Filling self per num_groups [] seen x v = rw append-nil v
group_all-Filling self per num_groups (id ∷ ids) seen x v =
    rw (append_assoc seen (id ∷ []) ids) at (
      group_all-Filling self per num_groups ids (seen ++ id ∷ [])
        (group_one self per num_groups id x) (group_one-Filling self per num_groups id seen x v))

flatten-replicate : (n : ℕ) → flatten (replicate n []) ≡ []
flatten-replicate zero = refl
flatten-replicate (suc n) = flatten-replicate n

length-replicate : (n : ℕ) → length (replicate {A = List ℕ} n []) ≡ n
length-replicate zero = refl
length-replicate (suc n) = ap suc (length-replicate n)

start-Filling :
    (num_groups : ℕ)
    → 0 < num_groups
    → Filling num_groups []
        (record { groups = replicate num_groups []; pg_num = 0; added = 0; my_group = 0 })
start-Filling zero h = absurd (omega arith)
start-Filling (suc n) h = record {
  size = length-replicate (suc n);
  current = h;
  all = flatten-replicate (suc n);
  rest = flatten-replicate n;
}

-- `peersToGroups` makes the wanted number of groups, and the groups one after another are the list
-- of nodes: every node is in one group, at its place.
pub peers_to_groups_lem :
    (self num_groups : ℕ) (ids : List ℕ)
    → 0 < num_groups
    → (length (peers_to_groups self num_groups ids).groups ≡ num_groups)
      × (flatten (peers_to_groups self num_groups ids).groups ≡ ids)
unfolding peers_to_groups
peers_to_groups_lem self num_groups ids h =
    let v =
      group_all-Filling self (length ids / num_groups) num_groups ids [] _
        (start-Filling num_groups h) in
    (v.size, v.all)

-- ===== src/Relay/Numbers.antt =====
-- The group that a new replica looks up for a node is the group that the node is in.
use pigpaxos.Prelude.{
  ℕ, suc, ◌+◌, ◌<◌, ◌≡◌, refl, ap, sym, ◌∙◌, List, [], ◌∷◌, ◌++◌, some, true, false, ◌||◌,
  if◌then◌else◌, contains, get_elem?, arith, some_inj, Bool-cases, inl, inr,
}
use pigpaxos.Prelude.Assoc.{lookup, insert, lookup-insert}
use pigpaxos.Relay.Groups.{peers_to_groups}
use pigpaxos.Relay.Groups.Partition.{flatten, peers_to_groups_lem}
use pigpaxos.Relay.Start.{number_group, number_groups}

lookup-number_group :
    (i k : ℕ) (ids : List ℕ) (m : List (ℕ × ℕ))
    → lookup k (number_group i ids m) ≡ (if contains ids k then some i else lookup k m)
unfolding number_group
lookup-number_group i k [] m = refl
lookup-number_group i k (id ∷ ids) m =
    ground (arith, lookup-number_group i k ids (insert id i m), lookup-insert id k i m)

contains-append :
    (k : ℕ) (xs ys : List ℕ) → contains (xs ++ ys) k ≡ (contains xs k || contains ys k)
contains-append k [] ys = refl
contains-append k (x ∷ xs) ys = ground (arith, contains-append k xs ys)

-- a group that is not nil leaves the loop running
number_groups_next :
    (i : ℕ) (g : List ℕ) (gs : List (List ℕ)) (m n : List (ℕ × ℕ))
    → number_groups i (g ∷ gs) m ≡ some n
    → number_groups (i + 1) gs (number_group i g m) ≡ some n
unfolding number_groups
number_groups_next i g gs m n h = ground (arith, h)

lookup-number_groups_other :
    (i k : ℕ) (gs : List (List ℕ)) (m n : List (ℕ × ℕ))
    → number_groups i gs m ≡ some n
    → contains (flatten gs) k ≡ false
    → lookup k n ≡ lookup k m
unfolding number_groups
lookup-number_groups_other i k [] m n h e = ap (lookup k) (sym (some_inj h))
lookup-number_groups_other i k (g ∷ gs) m n h e =
    let later =
      lookup-number_groups_other (i + 1) k gs (number_group i g m) n
        (number_groups_next i g gs m n h) (ground (arith, contains-append k g (flatten gs))) in
    ground (arith, later, lookup-number_group i k g m, contains-append k g (flatten gs))

-- The group `j` of `gs`, counted from `i`, is the number of the node `k`, and the node is in it.
abbrev pub Numbered : ℕ → List (List ℕ) → List (ℕ × ℕ) → ℕ → Type 0
Numbered i gs n k =
    (j : ℕ) × (g : List ℕ) × (lookup k n ≡ some (i + j))
    × (get_elem? gs j ≡ some g)
    × (contains g k ≡ true)

number_groups-Numbered :
    (i k : ℕ) (gs : List (List ℕ)) (m n : List (ℕ × ℕ))
    → number_groups i gs m ≡ some n
    → contains (flatten gs) k ≡ true
    → Numbered i gs n k
number_groups-Numbered i k [] m n h e = cc
number_groups-Numbered i k (g ∷ gs) m n h e =
    let next = number_groups_next i g gs m n h in
    elim (Bool-cases (contains (flatten gs) k)) [
      | inl later ↦
          let (j, f, has, at, isin) =
            number_groups-Numbered (i + 1) k gs (number_group i g m) n next later in
          (suc j, f, ground (arith, has), at, isin)
      | inr last ↦
          let other = lookup-number_groups_other (i + 1) k gs (number_group i g m) n next last in
          let here : contains g k ≡ true = ground (arith, contains-append k g (flatten gs)) in
          (0, g, ground (arith, other, lookup-number_group i k g m), refl, here)
    ]

-- The number that `NewReplica` stores for a configured node is that of a peer group of
-- `peersToGroups` with the node in it, whenever no group is nil.
pub peers-Numbered :
    (self num_groups k : ℕ) (ids : List ℕ) (n : List (ℕ × ℕ))
    → 0 < num_groups
    → number_groups 0 (peers_to_groups self num_groups ids).groups [] ≡ some n
    → contains ids k ≡ true
    → Numbered 0 (peers_to_groups self num_groups ids).groups n k
peers-Numbered self num_groups k ids n h run isin =
    number_groups-Numbered 0 k (peers_to_groups self num_groups ids).groups [] n run
      (ap (λ (t : List ℕ). contains t k) (peers_to_groups_lem self num_groups ids h).1 ∙ isin)

-- ===== src/Quorum/Valid.antt =====
-- What `ACK` and `Reset` keep: the size and the zone counts are those of distinct voters.
use pigpaxos.Prelude.{
  ℕ, ◌≡◌, refl, sym, ◌≤◌, List, [], ◌∷◌, Bool-cases, inl, inr, arith, length, contains, IsNodup,
  ◌==◌, ◌||◌, length-le-length, none, some,
}
use pigpaxos.Config.Tally.{IsTally, IsTally-nil, IsTally-increment}
use pigpaxos.Quorum.{Quorum, ack, nack, reset, new_quorum}

pub record IsValid (q : Quorum) : Type 0 where
  pub sized : q.size ≡ length q.acks
  pub distinct : IsNodup q.acks
  pub tally : IsTally q.acks q.zones

pub new_quorum-IsValid : IsValid new_quorum
new_quorum-IsValid = record { sized = refl; distinct = tt; tally = IsTally-nil }

-- A reset quorum is valid and has no votes of either kind.
pub reset-IsValid : (q : Quorum) → IsValid (reset q)
reset-IsValid q = record { sized = refl; distinct = tt; tally = IsTally-nil }

pub ack-IsValid : (q : Quorum) (id : ℕ) → IsValid q → IsValid (ack q id)
unfolding ack
ack-IsValid q id v = elim (Bool-cases (contains q.acks id)) [
  | inl old ↦ rw old v
  | inr new ↦ rw new (record {
    sized = omega (arith, v.sized);
    distinct = (new, v.distinct);
    tally = IsTally-increment id q.acks q.zones v.tally;
  })
]

-- After `ACK` the voters are the old ones and the new one.
pub contains-ack :
    (q : Quorum) (id a : ℕ) → contains (ack q id).acks a ≡ (id == a || contains q.acks a)
unfolding ack
contains-ack q id a = ground arith

-- `ACK` for each identity of a list, as the handlers call it
unfoldable pub ack_all : Quorum → List ℕ → Quorum
ack_all q [] = q
ack_all q (id ∷ ids) = ack_all (ack q id) ids

pub ack_all-IsValid : (q : Quorum) (ids : List ℕ) → IsValid q → IsValid (ack_all q ids)
unfolding ack_all
ack_all-IsValid q [] v = v
ack_all-IsValid q (id ∷ ids) v = ack_all-IsValid (ack q id) ids (ack-IsValid q id v)

pub contains-ack_all :
    (q : Quorum) (ids : List ℕ) (a : ℕ)
    → contains (ack_all q ids).acks a ≡ (contains ids a || contains q.acks a)
unfolding ack_all
contains-ack_all q [] a = refl
contains-ack_all q (id ∷ ids) a =
    ground (arith, contains-ack_all (ack q id) ids a, contains-ack q id a)

-- Neither the order nor the repetition of votes matters: two lists with the same voters lead
-- from one valid quorum to the same size.
pub ack_all_order :
    (q : Quorum) (xs ys : List ℕ)
    → IsValid q
    → ((a : ℕ) → contains xs a ≡ contains ys a)
    → (ack_all q xs).size ≡ (ack_all q ys).size
ack_all_order q xs ys v h = omega (
  arith,
  (ack_all-IsValid q xs v).sized,
  (ack_all-IsValid q ys v).sized,
  no_more xs ys h,
  no_more ys xs (λ a. sym (h a)),
)
  where
    no_more :
        (xs ys : List ℕ)
        → ((a : ℕ) → contains xs a ≡ contains ys a)
        → length (ack_all q xs).acks ≤ length (ack_all q ys).acks
    no_more xs ys h =
        length-le-length (ack_all q xs).acks (ack_all q ys).acks (ack_all-IsValid q xs v).distinct
          (λ a e. ground (arith, contains-ack_all q xs a, contains-ack_all q ys a, h a))

nack-ack_all : (q : Quorum) (ids : List ℕ) → (ack_all q ids).nacks ≡ q.nacks
unfolding ack_all ack
nack-ack_all q [] = refl
nack-ack_all q (id ∷ ids) = ground (arith, nack-ack_all (ack q id) ids)

-- A quorum from `NewQuorum` panics at its first `NACK`, whatever votes it has; after a `Reset` a
-- `NACK` records the node and leaves the votes alone.
pub nack_needs_reset :
    (q : Quorum) (ids : List ℕ) (id : ℕ)
    → (nack (ack_all new_quorum ids) id ≡ none)
      × (nack (ack_all (reset q) ids) id
          ≡ some (record (ack_all (reset q) ids) { nacks = some (id ∷ []) }))
unfolding nack
nack_needs_reset q ids id = ground (arith, nack-ack_all new_quorum ids, nack-ack_all (reset q) ids)

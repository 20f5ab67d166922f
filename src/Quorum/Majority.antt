-- ===== src/Quorum/Majority.antt =====
-- Quorums that must share a voter.
use pigpaxos.Prelude.{
  ℕ, ◌≤◌, ◌≡◌, List, true, arith, contains, count_if, count_if-true, pigeonhole, length-le-count_if,
  refl,
}
use pigpaxos.Config.{Config}
use pigpaxos.Config.Load.{Describes}
use pigpaxos.Quorum.{Quorum, majority}
use pigpaxos.Quorum.Valid.{IsValid}

-- A quorum whose voters are among the nodes `ms`.
pub record IsVoted (ms : List ℕ) (q : Quorum) : Type 0 where
  pub valid : IsValid q
  pub voters : (a : ℕ) → contains q.acks a ≡ true → contains ms a ≡ true

pub counted : (ms : List ℕ) (q : Quorum) → IsVoted ms q → q.size ≤ count_if (contains q.acks) ms
counted ms q v =
    omega (arith, v.valid.sized, length-le-count_if q.acks ms v.valid.distinct v.voters)

-- Two majorities of the configured nodes share a voter that is a node.
pub majorities_intersect :
    (c : Config) (ms : List ℕ) (q r : Quorum)
    → Describes ms c
    → IsVoted ms q
    → IsVoted ms r
    → majority c q ≡ true
    → majority c r ≡ true
    → (a : ℕ) × (contains ms a ≡ true) × (contains q.acks a ≡ true) × (contains r.acks a ≡ true)
unfolding majority
majorities_intersect c ms q r d v w hq hr =
    pigeonhole (contains q.acks) (contains r.acks) (λ a. true) ms (λ a e. refl) (λ a e. refl)
      (ground (arith, counted ms q v, counted ms r w, count_if-true ms, d.total))

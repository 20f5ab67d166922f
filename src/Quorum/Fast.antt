-- ===== src/Quorum/Fast.antt =====
-- Fast quorums.
use pigpaxos.Prelude.{
  ℕ, ◌%◌, ◌≡◌, List, true, ◌&&◌, arith, contains, count_if-true, count_if_both, pigeonhole, refl,
}
use pigpaxos.Config.{Config}
use pigpaxos.Config.Load.{Describes}
use pigpaxos.Quorum.{Quorum, majority, fast_quorum}
use pigpaxos.Quorum.Majority.{IsVoted, counted}

-- Where the number of nodes is a multiple of 4, any two fast quorums and any majority share a
-- voter.
pub fast_quorums_intersect :
    (c : Config) (ms : List ℕ) (q r m : Quorum)
    → c.n % 4 ≡ 0
    → Describes ms c
    → IsVoted ms q
    → IsVoted ms r
    → IsVoted ms m
    → fast_quorum c q ≡ true
    → fast_quorum c r ≡ true
    → majority c m ≡ true
    → (a : ℕ) × (contains q.acks a ≡ true) × (contains r.acks a ≡ true) × (contains m.acks a ≡ true)
unfolding majority fast_quorum
fast_quorums_intersect c ms q r m four d vq vr vm hq hr hm =
    let (a, _, both, last) =
      pigeonhole (λ a. contains q.acks a && contains r.acks a) (contains m.acks) (λ a. true) ms
        (λ a e. refl) (λ a e. refl)
        (ground (
          arith,
          counted ms q vq,
          counted ms r vr,
          counted ms m vm,
          count_if_both (contains q.acks) (contains r.acks) ms,
          count_if-true ms,
          d.total,
        )) in
    (a, ground arith, ground arith, last)

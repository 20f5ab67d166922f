-- ===== src/Pig/Promises.antt =====
-- Phase 1: what a promise reports, and what it forbids.
use mathlib.Core.List.{append-nil}
use pigpaxos.Prelude.{
  ℕ, zero, suc, ◌+◌, ◌-◌, ◌<◌, ◌^◌, max, ◌≡◌, refl, ◌∙◌, List, [], ◌∷◌, ◌++◌, map, length, Option,
  none, some, false, ◌&&◌, ◌==◌, ltb, leb, arith, Bool-cases, inl, inr, if◌then◌else◌,
}
use pigpaxos.Prelude.Assoc.{lookup, lookup-nil}
use pigpaxos.Ballot.{owner}
use pigpaxos.Config.{Config}
use pigpaxos.Pig.Msg.{CommandBallot, P1a, P1b, P2a, P3, promise, accepted}
use pigpaxos.Pig.State.{Entry, PigPaxos, send, forward, emit, forward_requests}
use pigpaxos.Pig.Prepare.{report, uncommitted, adopt, handle_p1a}
use pigpaxos.Pig.Accept.{accept_p2a, vote_p2a}
use pigpaxos.Pig.Commit.{commit_slots, handle_p3, handle_p2a}
use pigpaxos.Pig.Frame.{SameRole, commit_slots-SameRole, exec-SameRole}
use pigpaxos.Pig.Step.{Reach}
use pigpaxos.Pig.Ballots.{Reach-Advances}

-- The report of an entry, as a lookup: only an uncommitted one is reported.
abbrev pub reported : Option Entry → Option CommandBallot
reported none = none
reported (some e) =
    if e.commit then none else some (record { command = e.command; ballot = e.ballot })

lookup-report :
    (s t : ℕ) (o : Option Entry) (rest : List (ℕ × CommandBallot))
    → lookup t (report s o ++ rest) ≡ (
        if s == t
        then elim (reported o) [ none ↦ lookup t rest | some cb ↦ some cb ]
        else lookup t rest)
unfolding lookup
lookup-report s t none rest = ground arith
lookup-report s t (some e) rest = elim (Bool-cases e.commit) [
  | inl done ↦ rw done (ground arith)
  | inr open_yet ↦ rw open_yet refl
]

lookup-uncommitted :
    (log : List (ℕ × Entry)) (s rounds t : ℕ)
    → lookup t (uncommitted log s rounds)
      ≡ (if leb s t && ltb t (s + rounds) then reported (lookup t log) else none)
unfolding uncommitted
lookup-uncommitted log s zero t = rw lookup-nil (ground arith)
lookup-uncommitted log s (suc rounds) t = ground (
  arith,
  lookup-report s t (lookup s log) (uncommitted log (s + 1) rounds),
  lookup-uncommitted log (s + 1) rounds t,
)

-- The node that `HandleP1a` leaves, and the promise that it sends.
abbrev pub Promised : P1a → ℕ → PigPaxos → Type 0
Promised m to p =
    (r : P1b) × ((handle_p1a m to p).ballot ≡ max p.ballot m.ballot)
    × ((handle_p1a m to p).active ≡ (if ltb p.ballot m.ballot then false else p.active))
    × ((handle_p1a m to p).log ≡ p.log)
    × ((handle_p1a m to p).out
        ≡ (p.out
            ++ (if ltb p.ballot m.ballot then map (forward (owner m.ballot)) p.requests else []))
          ++ send to (promise r) ∷ [])
    × (r.ballot ≡ max p.ballot m.ballot)
    × ((t : ℕ)
        → lookup t r.log ≡ (
            if leb p.execute t && ltb t (max p.next_slot p.execute)
            then reported (lookup t p.log)
            else none))

-- `HandleP1a` adopts a higher ballot, and only then gives up leadership and forwards the pending
-- requests to the owner of that ballot. It leaves the log alone and sends one promise, at its
-- ballot, that reports for each slot from the execution point to the last slot the command and
-- ballot of an uncommitted entry, and nothing else.
pub handle_p1a_lem : (m : P1a) (to : ℕ) (p : PigPaxos) → Promised m to p
unfolding handle_p1a adopt forward_requests
handle_p1a_lem m to p = elim (Bool-cases (ltb p.ballot m.ballot)) [
  | inl new ↦ (
    record {
      id = p.id;
      ballot = m.ballot;
      log = uncommitted p.log p.execute (p.next_slot - p.execute);
    },
    rw new (ground arith),
    rw new,
    rw new,
    rw new,
    ground arith,
    λ t. ground (arith, lookup-uncommitted p.log p.execute (p.next_slot - p.execute) t),
  )
  | inr old ↦ (
    record {
      id = p.id;
      ballot = p.ballot;
      log = uncommitted p.log p.execute (p.next_slot - p.execute);
    },
    rw old (ground arith),
    rw old,
    rw old,
    rw old (rw append-nil),
    ground arith,
    λ t. ground (arith, lookup-uncommitted p.log p.execute (p.next_slot - p.execute) t),
  )
]

-- the node and its answer, when `HandleP2a` takes up nothing of the proposal
abbrev pub refuse : P2a → ℕ → PigPaxos → PigPaxos
refuse m to q =
    emit (send to (accepted (record { ballot = q.ballot; slot = m.slot; ids = q.id ∷ [] }))) q

handle_p3-SameRole : (c : Config) (m : P3) (p : PigPaxos) → SameRole p (handle_p3 c m p)
unfolding handle_p3
handle_p3-SameRole c m p =
    let s = commit_slots-SameRole c m.ballot m.slots p in
    let e = exec-SameRole (commit_slots c m.ballot m.slots p) in
    record { id = e.id ∙ s.id; ballot = e.ballot ∙ s.ballot; active = e.active ∙ s.active }

-- Whatever a node handles after it has reached a ballot, `HandleP2a` of a proposal of a lower ballot
-- answers with the node's ballot, which is higher than that of the proposal, and takes up nothing of
-- the proposal: with no P3 slots in the message the node is otherwise unchanged, and with P3 slots
-- it is what `HandleP3` of them makes of it. The node keeps its ballot and its leadership.
pub stale_p2a_rejected :
    (c : Config) (p q : PigPaxos) (m : P2a) (to : ℕ)
    → p.id < 2 ^ 32
    → Reach c p q
    → m.ballot < p.ballot
    → (handle_p2a c m to q ≡ (
        if ltb 0 (length m.p3msg.slots)
        then handle_p3 c m.p3msg (refuse m to q)
        else refuse m to q))
      × (m.ballot < q.ballot)
      × SameRole q (handle_p2a c m to q)
unfolding handle_p2a vote_p2a accept_p2a
stale_p2a_rejected c p q m to hi reach low =
    let below : m.ballot < q.ballot = omega (arith, (Reach-Advances hi reach).ballot) in
    let test : leb q.ballot m.ballot ≡ false = ground arith in
    rw test (
      refl,
      below,
      elim (Bool-cases (ltb 0 (length m.p3msg.slots))) [
        | inl some_slots ↦
            let r = handle_p3-SameRole c m.p3msg (refuse m to q) in
            rw some_slots (record { id = r.id; ballot = r.ballot; active = r.active })
        | inr no_slots ↦ rw no_slots (record { id = refl; ballot = refl; active = refl })
      ],
    )

-- ===== src/Pig/Invariant/Calls.antt =====
-- Every call keeps the invariant.
use pigpaxos.Prelude.{
  ℕ, ◌+◌, ◌-◌, ◌≤◌, ◌<◌, ◌≡◌, refl, max, List, [], ◌∷◌, Option, none, some, Bool, not, ◌&&◌, ◌==◌,
  ltb, leb, arith, Bool-cases, inl, inr, if_elim, ◌++◌,
}
use pigpaxos.Prelude.Assoc.{lookup, lookup-nil}
use pigpaxos.Ballot.{owner, next}
use pigpaxos.Config.{Config}
use pigpaxos.Quorum.{ack, reset, majority}
use pigpaxos.Quorum.Valid.{ack_all, ack_all-IsValid, new_quorum-IsValid, reset-IsValid, ack-IsValid}
use pigpaxos.Quorum.Valid
use pigpaxos.Pig.Msg.{Request, P1a, P1b, P2a}
use pigpaxos.Pig.State.{Entry, PigPaxos, new_pig_paxos, forward_requests}
use pigpaxos.Pig.Exec.{exec}
use pigpaxos.Pig.Prepare.{start_p1a, retry_p1a, adopt, handle_p1a}
use pigpaxos.Pig.Accept.{
  handle_request, start_p2a, propose_all, lead, count_promise, merge_promise, accept_entry,
  accept_p2a,
}
use pigpaxos.Pig.Commit.{commit_at, commit_slots}
use pigpaxos.Pig.Invariant.Logs.{
  EntryValid, LogValid, LogValid-mono, LogValid-insert, own_vote-IsValid, ReportsBelow,
  update-LogValid, repropose_log-LogValid, exec-LogValid, execute-exec,
}

accept_entry-EntryValid :
    (m : P2a) (n : ℕ) (o : Option Entry)
    → m.slot < n
    → ((e : Entry) → o ≡ some e → EntryValid n m.ballot m.slot e)
    → EntryValid n m.ballot m.slot (accept_entry m o)
accept_entry-EntryValid m n none h v = record {
  below = h;
  ballot = λ _. omega arith;
  votes = λ q e. cc;
}
accept_entry-EntryValid m n (some e) h v =
    let w = v e refl in
    record {
      below = h;
      ballot = λ open_yet. ground (arith, w.ballot);
      votes = λ q at. w.votes q (ground arith);
    }

commit_at-EntryValid :
    (n b s ballot : ℕ) (o : Option Entry)
    → s < n
    → ((e : Entry) → o ≡ some e → EntryValid n b s e)
    → EntryValid n b s (commit_at ballot o)
commit_at-EntryValid n b s ballot none h v = record {
  below = h;
  ballot = λ e. cc;
  votes = λ q e. cc;
}
commit_at-EntryValid n b s ballot (some e) h v =
    let w = v e refl in
    record {
      below = h;
      ballot = λ open_yet. ground (arith, w.ballot);
      votes = λ q at. w.votes q (ground arith);
    }

-- The log is well-formed for the node's slot counter and ballot, the execution point is within it,
-- and the promises are counted once each.
pub record IsValid (p : PigPaxos) : Type 0 where
  pub entries : LogValid p.next_slot p.ballot p.log
  pub executed : p.execute ≤ p.next_slot
  pub promises : Valid.IsValid p.quorum

pub new_pig_paxos-IsValid : (id : ℕ) (multiversion : Bool) → IsValid (new_pig_paxos id multiversion)
new_pig_paxos-IsValid id multiversion = record {
  entries = λ s e at. cc (lookup-nil {V = Entry} s);
  executed = omega arith;
  promises = new_quorum-IsValid;
}

pub exec-IsValid : (p : PigPaxos) → IsValid p → IsValid (exec p)
unfolding exec
exec-IsValid p v = record {
  entries = exec-LogValid p p.next_slot p.ballot v.entries;
  executed = execute-exec p p.ballot v.entries v.executed;
  promises = v.promises;
}

start_p1a-IsValid :
    (now : ℕ) (p : PigPaxos)
    → p.ballot ≤ (start_p1a now p).ballot
    → IsValid p
    → IsValid (start_p1a now p)
unfolding start_p1a
start_p1a-IsValid now p up v =
    if_elim IsValid p.active _ _ (λ leads. v)
      (λ follows. record {
        entries =
            LogValid-mono p.next_slot p.next_slot p.ballot (next p.ballot p.id) p.log (omega arith)
              (ground arith) v.entries;
        executed = v.executed;
        promises = ack-IsValid (reset p.quorum) p.id (reset-IsValid p.quorum);
      })

pub retry_p1a-IsValid : (now : ℕ) (p : PigPaxos) → IsValid p → IsValid (retry_p1a now p)
unfolding retry_p1a
retry_p1a-IsValid now p v =
    if_elim IsValid p.active _ _ (λ leads. v)
      (λ follows. record {
        entries = v.entries;
        executed = v.executed;
        promises = ack-IsValid (reset p.quorum) p.id (reset-IsValid p.quorum);
      })

start_p2a-IsValid : (now : ℕ) (p : PigPaxos) (r : Request) → IsValid p → IsValid (start_p2a now p r)
unfolding start_p2a
start_p2a-IsValid now p r v = record {
  entries =
      LogValid-insert (p.next_slot + 1) p.ballot p.next_slot _ p.log
        (record {
          below = omega arith;
          ballot = λ _. omega arith;
          votes = λ q h. own_vote-IsValid p.id q h;
        })
        (LogValid-mono p.next_slot (p.next_slot + 1) p.ballot p.ballot p.log (omega arith)
          (omega arith) v.entries);
  executed = omega (arith, v.executed);
  promises = v.promises;
}

pub handle_request-IsValid :
    (now : ℕ) (r : Request) (p : PigPaxos)
    → p.ballot ≤ (handle_request now r p).ballot
    → IsValid p
    → IsValid (handle_request now r p)
unfolding handle_request
handle_request-IsValid now r p up v =
    let queued : IsValid (record p { requests = p.requests ++ r ∷ [] }) = record {
      entries = v.entries;
      executed = v.executed;
      promises = v.promises;
    } in
    if_elim IsValid (not p.active) _ _
      (λ follows.
        if_elim IsValid (not (owner p.ballot == p.id)) _ _
          (λ other. start_p1a-IsValid now _ (ground arith) queued) (λ waiting. queued))
      (λ leads. start_p2a-IsValid now p r v)

pub handle_p1a-IsValid : (m : P1a) (to : ℕ) (p : PigPaxos) → IsValid p → IsValid (handle_p1a m to p)
unfolding handle_p1a adopt forward_requests
handle_p1a-IsValid m to p v = elim (Bool-cases (ltb p.ballot m.ballot)) [
  | inl new ↦ rw new (record {
    entries =
        LogValid-mono p.next_slot p.next_slot p.ballot m.ballot p.log (omega arith) (ground arith)
          v.entries;
    executed = v.executed;
    promises = v.promises;
  })
  | inr old ↦ rw old (record { entries = v.entries; executed = v.executed; promises = v.promises })
]

propose_all-IsValid :
    (now : ℕ) (rs : List Request) (p : PigPaxos) → IsValid p → IsValid (propose_all now rs p)
unfolding propose_all
propose_all-IsValid now [] p v = v
propose_all-IsValid now (r ∷ rs) p v =
    propose_all-IsValid now rs (start_p2a now p r) (start_p2a-IsValid now p r v)

lead-IsValid : (now : ℕ) (p : PigPaxos) → IsValid p → IsValid (lead now p)
unfolding lead
lead-IsValid now p v =
    let w = propose_all-IsValid now p.requests _ (record {
      entries =
          repropose_log-LogValid p.id p.next_slot p.ballot p.log p.execute (p.next_slot - p.execute)
            v.entries;
      executed = v.executed;
      promises = v.promises;
    }) in
    record { entries = w.entries; executed = w.executed; promises = w.promises }

pub count_promise-IsValid :
    (c : Config) (now : ℕ) (m : P1b) (p : PigPaxos) → IsValid p → IsValid (count_promise c now m p)
unfolding count_promise
count_promise-IsValid c now m p v =
    let counted : IsValid (record p { quorum = ack p.quorum m.id }) = record {
      entries = v.entries;
      executed = v.executed;
      promises = ack-IsValid p.quorum m.id v.promises;
    } in
    if_elim IsValid (owner m.ballot == p.id && m.ballot == p.ballot) _ _
      (λ mine.
        if_elim IsValid (majority c (ack p.quorum m.id)) _ _ (λ enough. lead-IsValid now _ counted)
          (λ few. counted))
      (λ other. v)

pub merge_promise-IsValid :
    (m : P1b) (p : PigPaxos)
    → p.ballot ≤ m.ballot
    → ReportsBelow m.ballot m.log
    → IsValid p
    → IsValid (merge_promise m p)
unfolding merge_promise forward_requests
merge_promise-IsValid m p h reports v =
    let (merged, up) =
      update-LogValid m.log m.ballot (record { log = p.log; next_slot = p.next_slot }) reports
        (LogValid-mono p.next_slot p.next_slot p.ballot m.ballot p.log (omega arith) h v.entries) in
    if_elim IsValid (ltb p.ballot m.ballot) _ _
      (λ new. record {
        entries = merged;
        executed = omega (arith, v.executed, up);
        promises = v.promises;
      })
      (λ old. record {
        entries = LogValid-mono _ _ m.ballot p.ballot _ (omega arith) (ground arith) merged;
        executed = omega (arith, v.executed, up);
        promises = v.promises;
      })

pub accept_p2a-IsValid : (m : P2a) (p : PigPaxos) → IsValid p → IsValid (accept_p2a m p)
unfolding accept_p2a
accept_p2a-IsValid m p v = elim (Bool-cases (leb p.ballot m.ballot)) [
  | inr stale ↦ rw stale v
  | inl current ↦
      let n = max p.next_slot (m.slot + 1) in
      let wide =
        LogValid-mono p.next_slot n p.ballot m.ballot p.log (omega arith) (ground arith)
          v.entries in
      rw current (record {
        entries =
            LogValid-insert n m.ballot m.slot _ p.log
              (accept_entry-EntryValid m n (lookup m.slot p.log) (omega arith)
                (λ e at. wide m.slot e at))
              wide;
        executed = omega (arith, v.executed);
        promises = v.promises;
      })
]

pub commit_slots-IsValid :
    (c : Config) (b : ℕ) (slots : List ℕ) (p : PigPaxos)
    → IsValid p
    → IsValid (commit_slots c b slots p)
unfolding commit_slots
commit_slots-IsValid c b [] p v = v
commit_slots-IsValid c b (s ∷ slots) p v =
    let n = max p.next_slot (s + 1) in
    let wide =
      LogValid-mono p.next_slot n p.ballot p.ballot p.log (omega arith) (omega arith) v.entries in
    commit_slots-IsValid c b slots _ (record {
      entries =
          LogValid-insert n p.ballot s _ p.log
            (commit_at-EntryValid n p.ballot s b (lookup s p.log) (omega arith)
              (λ e at. wide s e at))
            wide;
      executed = omega (arith, v.executed);
      promises = v.promises;
    })

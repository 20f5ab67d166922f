-- ===== src/Pig/Accept.antt =====
-- Phase 2: `P2a`, `RetryP2a`, `HandleP1b`, `HandleRequest`, `HandleP2a`, `HandleP2b`.
use pigpaxos.Prelude.{
  ℕ, zero, suc, ◌+◌, ◌-◌, ◌/◌, max, List, [], ◌∷◌, ◌++◌, Option, none, some, true, false, not, ◌&&◌,
  ◌||◌, ltb, leb, ◌==◌, if◌then◌else◌,
}
use pigpaxos.Prelude.Assoc.{lookup, insert}
use pigpaxos.Ballot.{owner}
use pigpaxos.Config.{Config}
use pigpaxos.Quorum.{new_quorum, ack, majority}
use pigpaxos.Quorum.Valid.{ack_all}
use pigpaxos.Db.{equal}
use pigpaxos.Pig.Msg.{Request, P1b, P2a, P3, accept, accepted, committed}
use pigpaxos.Pig.State.{
  Entry, Out, broadcast, send, forward, reply, retro, PigPaxos, emit, forward_requests,
}
use pigpaxos.Pig.Exec.{exec}
use pigpaxos.Pig.Prepare.{start_p1a, update}

-- `CurrentTimeInMS` of hlc, from a reading in nanoseconds
abbrev pub in_ms : ℕ → ℕ
in_ms now = now / 1_000_000

abbrev pub no_p3 : P3
no_p3 = record { ballot = 0; slots = [] }

-- `P2a` for a request: a new slot with the vote of the node itself
unfoldable pub start_p2a : ℕ → PigPaxos → Request → PigPaxos
start_p2a now p r =
    let pending = ltb 0 p.p3_ballot in
    let e : Entry = record {
      ballot = p.ballot;
      command = r.command;
      commit = false;
      request = some r;
      quorum = some (ack new_quorum p.id);
      timestamp = now;
    } in
    let m : P2a = record {
      ballot = p.ballot;
      slot = p.next_slot;
      global_execute = p.global_execute;
      command = r.command;
      p3msg = if pending then record { ballot = p.p3_ballot; slots = p.p3_slots } else no_p3;
    } in
    record p {
      log = insert p.next_slot e p.log;
      next_slot = p.next_slot + 1;
      p3_slots = if pending then [] else p.p3_slots;
      last_p3_time = if pending then in_ms now else p.last_p3_time;
      out = p.out ++ broadcast (accept m) ∷ [];
    }

-- `RetryP2a`
unfoldable pub retry_p2a : ℕ → Entry → PigPaxos → PigPaxos
retry_p2a slot e p =
    emit
      (broadcast (
        accept (record {
          ballot = p.ballot;
          slot = slot;
          global_execute = p.global_execute;
          command = e.command;
          p3msg = no_p3;
        })))
      p

-- `HandleRequest`
unfoldable pub handle_request : ℕ → Request → PigPaxos → PigPaxos
handle_request now r p =
    if not p.active
    then (let q = record p { requests = p.requests ++ r ∷ [] } in
        if not (owner p.ballot == p.id) then start_p1a now q else q)
    else start_p2a now p r

-- an uncommitted entry under the new ballot, with the vote of the node itself
abbrev pub repropose : ℕ → ℕ → Entry → Entry
repropose self ballot e = record e { ballot = ballot; quorum = some (ack new_quorum self) }

-- one round of the loop of `HandleP1b` over the log
unfoldable pub repropose_at : ℕ → ℕ → ℕ → List (ℕ × Entry) → List (ℕ × Entry)
repropose_at self ballot s log = elim (lookup s log) [
  | none ↦ log
  | some e ↦ if e.commit then log else insert s (repropose self ballot e) log
]

-- the loop over `rounds` slots from `s` on: what it makes of the log ...
unfoldable pub repropose_log : ℕ → ℕ → List (ℕ × Entry) → ℕ → ℕ → List (ℕ × Entry)
repropose_log self ballot log s zero = log
repropose_log self ballot log s (suc rounds) =
    repropose_log self ballot (repropose_at self ballot s log) (s + 1) rounds

-- ... and what it broadcasts
unfoldable pub repropose_out : ℕ → ℕ → List (ℕ × Entry) → ℕ → ℕ → List Out
repropose_out ballot global log s zero = []
repropose_out ballot global log s (suc rounds) =
    elim (lookup s log) [
      | none ↦ []
      | some e ↦
          if e.commit
          then []
          else broadcast (
              accept (record {
                ballot = ballot;
                slot = s;
                global_execute = global;
                command = e.command;
                p3msg = no_p3;
              }))
            ∷ []
    ]
    ++ repropose_out ballot global log (s + 1) rounds

-- the loop of `HandleP1b` over the pending requests
unfoldable pub propose_all : ℕ → List Request → PigPaxos → PigPaxos
propose_all now [] p = p
propose_all now (r ∷ rs) p = propose_all now rs (start_p2a now p r)

-- a phase 1 quorum has been reached
unfoldable pub lead : ℕ → PigPaxos → PigPaxos
lead now p =
    let rounds = p.next_slot - p.execute in
    let p' = record p {
      active = true;
      p3_ballot = p.ballot;
      log = repropose_log p.id p.ballot p.log p.execute rounds;
      out = p.out ++ repropose_out p.ballot p.global_execute p.log p.execute rounds;
    } in
    record (propose_all now p.requests p') { requests = [] }

-- the `ack message` part of `HandleP1b`
unfoldable pub count_promise : Config → ℕ → P1b → PigPaxos → PigPaxos
count_promise c now m p =
    if owner m.ballot == p.id && m.ballot == p.ballot
    then (let q = ack p.quorum m.id in
        let p' = record p { quorum = q } in if majority c q then lead now p' else p')
    else p

-- the call of `update` and the `reject message` part of `HandleP1b`
unfoldable pub merge_promise : P1b → PigPaxos → PigPaxos
merge_promise m p =
    let x = update m.log (record { log = p.log; next_slot = p.next_slot }) in
    let p' = record p { log = x.log; next_slot = x.next_slot } in
    if ltb p'.ballot m.ballot
    then forward_requests (record p' { ballot = m.ballot; active = false })
    else p'

-- `HandleP1b`
unfoldable pub handle_p1b : Config → ℕ → P1b → PigPaxos → PigPaxos
handle_p1b c now m p =
    if ltb m.ballot p.ballot || p.active then p else count_promise c now m (merge_promise m p)

-- the entry that `HandleP2a` leaves at the slot of the message ...
abbrev pub accept_entry : P2a → Option Entry → Entry
accept_entry m none = record {
  ballot = m.ballot;
  command = m.command;
  commit = false;
  request = none;
  quorum = none;
  timestamp = 0;
}
accept_entry m (some e) =
    if not e.commit && ltb e.ballot m.ballot
    then record e {
      request = if not (equal e.command m.command) then none else e.request;
      command = m.command;
      ballot = m.ballot;
    }
    else if e.commit && e.ballot == 0
    then record e { command = m.command; ballot = m.ballot }
    else e

-- ... and the request that it forwards to the new leader
abbrev pub accept_out : P2a → Option Entry → List Out
accept_out m none = []
accept_out m (some e) =
    if not e.commit && ltb e.ballot m.ballot && not (equal e.command m.command)
    then elim e.request [ none ↦ [] | some r ↦ forward (owner m.ballot) r ∷ [] ]
    else []

-- the part of `HandleP2a` under the test on the ballot
unfoldable pub accept_p2a : P2a → PigPaxos → PigPaxos
accept_p2a m p =
    if leb p.ballot m.ballot
    then record p {
      ballot = m.ballot;
      active = false;
      global_execute = m.global_execute;
      next_slot = max p.next_slot (m.slot + 1);
      log = insert m.slot (accept_entry m (lookup m.slot p.log)) p.log;
      out = p.out ++ accept_out m (lookup m.slot p.log);
    }
    else p

-- `HandleP2a` up to the `HandleP3` of the message that it carries
unfoldable pub vote_p2a : P2a → ℕ → PigPaxos → PigPaxos
vote_p2a m to p =
    let p' = accept_p2a m p in
    emit (send to (accepted (record { ballot = p'.ballot; slot = m.slot; ids = p'.id ∷ [] }))) p'

-- the `reject message` part of `HandleP2b`
unfoldable pub step_down : ℕ → ℕ → PigPaxos → PigPaxos
step_down now ballot p =
    if ltb p.ballot ballot
    then record p {
      ballot = ballot;
      active = false;
      out =
          p.out ++ broadcast (committed (record { ballot = p.p3_ballot; slots = p.p3_slots })) ∷ [];
      last_p3_time = in_ms now;
      p3_slots = [];
      p3_ballot = 0;
    }
    else p

-- What follows the commit of a slot in `HandleP2b`; `none` is the panic of a nil `entry.request`.
unfoldable pub after_commit : Entry → PigPaxos → Option PigPaxos
after_commit e p =
    if p.reply_when_commit
    then elim e.request [
      | none ↦ none
      | some r ↦
          some (
            emit (reply r (record { command = r.command; value = none; timestamp = r.timestamp }))
              p)
    ]
    else some (exec p)

-- `entry.commit = true`, the retroscope record and `p3pendingSlots`
unfoldable pub commit_entry : Config → ℕ → Entry → PigPaxos → PigPaxos
commit_entry c slot e p = record p {
  log = insert slot (record e { commit = true }) p.log;
  out = p.out ++ (if c.use_retro_log then retro slot e.command ∷ [] else []);
  p3_slots = p.p3_slots ++ slot ∷ [];
}

-- the `ack message` part of `HandleP2b`; `none` is the panic of a nil `entry.quorum`
unfoldable pub count_votes : Config → ℕ → ℕ → List ℕ → Entry → PigPaxos → Option PigPaxos
count_votes c slot ballot ids e p =
    if owner ballot == p.id && ballot == e.ballot
    then elim e.quorum [
      | none ↦ none
      | some q ↦
          let q' = ack_all q ids in
          let e' = record e { quorum = some q' } in
          if majority c q'
          then after_commit (record e' { commit = true }) (commit_entry c slot e' p)
          else some (record p { log = insert slot e' p.log })
    ]
    else some p

-- `HandleP2b`
unfoldable pub handle_p2b : Config → ℕ → ℕ → ℕ → List ℕ → PigPaxos → Option PigPaxos
handle_p2b c now slot ballot ids p = elim (lookup slot p.log) [
  | none ↦ some p
  | some e ↦
      if ltb ballot e.ballot || e.commit
      then some p
      else count_votes c slot ballot ids e (step_down now ballot p)
]

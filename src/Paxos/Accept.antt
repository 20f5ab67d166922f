-- ===== src/Paxos/Accept.antt =====
-- `HandleRequest`, `P1a`, `P2a`, `HandleP1a`, `HandleP1b`, `HandleP2a` without its P3, `HandleP2b`.
use pigpaxos.Prelude.{
  ℕ, zero, suc, ◌+◌, ◌-◌, max, List, [], ◌∷◌, ◌++◌, Option, none, some, true, false, not, ◌&&◌,
  ◌||◌, ltb, leb, ◌==◌, if◌then◌else◌,
}
use pigpaxos.Prelude.Assoc.{lookup, insert}
use pigpaxos.Ballot.{owner, next}
use pigpaxos.Config.{Config}
use pigpaxos.Quorum.{new_quorum, ack, reset, majority}
use pigpaxos.Db.{equal}
use pigpaxos.Pig.Msg.{Request, P1a, P1b, P2a}
use pigpaxos.Pig.State.{Entry}
use pigpaxos.Pig.Prepare.{update, uncommitted}
use pigpaxos.Pig.Accept.{in_ms, no_p3, repropose_log, accept_entry}
use pigpaxos.Paxos.State.{
  Vote, Sent, prepare, promise, accept, accepted, committed, forward, reply, Paxos, emit,
  forward_requests,
}
use pigpaxos.Paxos.Exec.{exec}

-- `P1a`
unfoldable pub start_p1a : Paxos → Paxos
start_p1a p =
    if p.active
    then p
    else (let b = next p.ballot p.id in
        record p {
          ballot = b;
          quorum = ack (reset p.quorum) p.id;
          out = p.out ++ prepare (record { ballot = b }) ∷ [];
        })

-- `P2a`
unfoldable pub start_p2a : ℕ → Paxos → Request → Paxos
start_p2a now p r =
    let pending = ltb 0 p.p3_ballot in
    let e : Entry = record {
      ballot = p.ballot;
      command = r.command;
      commit = false;
      request = some r;
      quorum = some (ack new_quorum p.id);
      timestamp = now;
    } in
    let m : P2a = record {
      ballot = p.ballot;
      slot = p.next_slot;
      global_execute = p.global_executed;
      command = r.command;
      p3msg = if pending then record { ballot = p.p3_ballot; slots = p.p3_slots } else no_p3;
    } in
    record p {
      log = insert p.next_slot e p.log;
      next_slot = p.next_slot + 1;
      p3_slots = if pending then [] else p.p3_slots;
      last_p3_time = if pending then in_ms now else p.last_p3_time;
      out = p.out ++ accept m ∷ [];
    }

-- `HandleRequest`
unfoldable pub handle_request : ℕ → Request → Paxos → Paxos
handle_request now r p =
    if not p.active
    then (let q = record p { requests = p.requests ++ r ∷ [] } in
        if not (owner p.ballot == p.id) then start_p1a q else q)
    else start_p2a now p r

-- the `new leader` branch of `HandleP1a`
unfoldable pub adopt : P1a → Paxos → Paxos
adopt m p =
    if ltb p.ballot m.ballot
    then forward_requests (record p { ballot = m.ballot; active = false })
    else p

-- `HandleP1a`
unfoldable pub handle_p1a : P1a → Paxos → Paxos
handle_p1a m p =
    let p' = adopt m p in
    emit
      (promise (owner m.ballot) (record {
        id = p'.id;
        ballot = p'.ballot;
        log = uncommitted p'.log p'.execute (p'.next_slot - p'.execute);
      }))
      p'

-- what the loop of `HandleP1b` over `rounds` slots broadcasts
unfoldable pub repropose_out : ℕ → ℕ → List (ℕ × Entry) → ℕ → ℕ → List Sent
repropose_out ballot global log s zero = []
repropose_out ballot global log s (suc rounds) =
    elim (lookup s log) [
      | none ↦ []
      | some e ↦
          if e.commit
          then []
          else accept (record {
            ballot = ballot;
            slot = s;
            global_execute = global;
            command = e.command;
            p3msg = no_p3;
          })
            ∷ []
    ]
    ++ repropose_out ballot global log (s + 1) rounds

-- the loop of `HandleP1b` over the pending requests
unfoldable pub propose_all : ℕ → List Request → Paxos → Paxos
propose_all now [] p = p
propose_all now (r ∷ rs) p = propose_all now rs (start_p2a now p r)

-- a phase 1 quorum has been reached
unfoldable pub lead : ℕ → Paxos → Paxos
lead now p =
    let rounds = p.next_slot - p.execute in
    let p' = record p {
      active = true;
      p3_ballot = p.ballot;
      log = repropose_log p.id p.ballot p.log p.execute rounds;
      out = p.out ++ repropose_out p.ballot p.global_executed p.log p.execute rounds;
    } in
    record (propose_all now p.requests p') { requests = [] }

-- the `ack message` part of `HandleP1b`
unfoldable pub count_promise : Config → ℕ → P1b → Paxos → Paxos
count_promise c now m p =
    if owner m.ballot == p.id && m.ballot == p.ballot
    then (let q = ack p.quorum m.id in
        let p' = record p { quorum = q } in if majority c q then lead now p' else p')
    else p

-- the call of `update` and the `reject message` part of `HandleP1b`
unfoldable pub merge_promise : P1b → Paxos → Paxos
merge_promise m p =
    let x = update m.log (record { log = p.log; next_slot = p.next_slot }) in
    let p' = record p { log = x.log; next_slot = x.next_slot } in
    if ltb p'.ballot m.ballot
    then forward_requests (record p' { ballot = m.ballot; active = false })
    else p'

-- `HandleP1b`
unfoldable pub handle_p1b : Config → ℕ → P1b → Paxos → Paxos
handle_p1b c now m p =
    if ltb m.ballot p.ballot || p.active then p else count_promise c now m (merge_promise m p)

-- the request that `HandleP2a` forwards to the new leader
abbrev pub accept_out : P2a → Option Entry → List Sent
accept_out m none = []
accept_out m (some e) =
    if not e.commit && ltb e.ballot m.ballot && not (equal e.command m.command)
    then elim e.request [ none ↦ [] | some r ↦ forward (owner m.ballot) r ∷ [] ]
    else []

-- the part of `HandleP2a` under the test on the ballot
unfoldable pub accept_p2a : P2a → Paxos → Paxos
accept_p2a m p =
    if leb p.ballot m.ballot
    then record p {
      ballot = m.ballot;
      active = false;
      global_executed = m.global_execute;
      next_slot = max p.next_slot (m.slot + 1);
      log = insert m.slot (accept_entry m (lookup m.slot p.log)) p.log;
      out = p.out ++ accept_out m (lookup m.slot p.log);
    }
    else p

-- `HandleP2a` up to the `HandleP3` of the message that it carries
unfoldable pub vote_p2a : P2a → Paxos → Paxos
vote_p2a m p =
    let p' = accept_p2a m p in
    emit
      (accepted (owner m.ballot)
        (record { ballot = p'.ballot; id = p'.id; slot = m.slot; last_executed = p'.execute }))
      p'

-- the `reject message` part of `HandleP2b`
unfoldable pub step_down : ℕ → ℕ → Paxos → Paxos
step_down now ballot p =
    if ltb p.ballot ballot
    then record p {
      ballot = ballot;
      active = false;
      out = p.out ++ committed (record { ballot = p.p3_ballot; slots = p.p3_slots }) ∷ [];
      last_p3_time = in_ms now;
      p3_slots = [];
      p3_ballot = 0;
    }
    else p

-- What follows the commit of a slot in `HandleP2b`; `none` is the panic of a nil `entry.request`.
unfoldable pub after_commit : Entry → Paxos → Option Paxos
after_commit e p =
    if p.reply_when_commit
    then elim e.request [
      | none ↦ none
      | some r ↦
          some (
            emit (reply r (record { command = r.command; value = none; timestamp = r.timestamp }))
              p)
    ]
    else some (exec p)

-- the `ack message` part of `HandleP2b`; `none` is the panic of a nil `entry.quorum`
unfoldable pub count_vote : Config → Vote → Entry → Paxos → Option Paxos
count_vote c m e p =
    if owner m.ballot == p.id && m.ballot == e.ballot
    then elim e.quorum [
      | none ↦ none
      | some q ↦
          let q' = ack q m.id in
          let e' = record e { quorum = some q' } in
          if majority c q'
          then after_commit (record e' { commit = true })
              (record p {
                log = insert m.slot (record e' { commit = true }) p.log;
                p3_slots = p.p3_slots ++ m.slot ∷ [];
              })
          else some (record p { log = insert m.slot e' p.log })
    ]
    else some p

-- `HandleP2b`
unfoldable pub handle_p2b : Config → ℕ → Vote → Paxos → Option Paxos
handle_p2b c now m p = elim (lookup m.slot p.log) [
  | none ↦ some p
  | some e ↦
      if ltb m.ballot e.ballot || e.commit
      then some p
      else count_vote c m e (
          step_down now m.ballot
            (record p { execute_by_node = insert m.id m.last_executed p.execute_by_node }))
]

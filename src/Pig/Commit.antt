-- ===== src/Pig/Commit.antt =====
-- Phase 3: `HandleP3` and the recovery of slots; with it the whole of `HandleP2a`.
use pigpaxos.Prelude.{
  ℕ, ◌+◌, max, List, [], ◌∷◌, ◌++◌, Option, none, some, Bool, true, ◌==◌, ltb, if◌then◌else◌,
  length,
}
use pigpaxos.Prelude.Assoc.{lookup, insert}
use pigpaxos.Ballot.{owner}
use pigpaxos.Config.{Config}
use pigpaxos.Pig.Msg.{P2a, P3, P3RecoverRequest, P3RecoverReply, recover_reply}
use pigpaxos.Pig.State.{
  Entry, Out, send, forward, reply, retro, PigPaxos, emit, recover_from, no_command,
}
use pigpaxos.Pig.Exec.{exec}
use pigpaxos.Pig.Accept.{vote_p2a}

-- what `HandleP3` makes of the entry of a slot ...
abbrev pub commit_at : ℕ → Option Entry → Entry
commit_at ballot none = record {
  ballot = 0;
  command = no_command;
  commit = true;
  request = none;
  quorum = none;
  timestamp = 0;
}
commit_at ballot (some e) =
    if e.ballot == ballot then record e { commit = true } else record e { request = none }

-- ... and what it sends for it
abbrev pub commit_sends : ℕ → ℕ → ℕ → Option Entry → List Out
commit_sends self ballot slot none = []
commit_sends self ballot slot (some e) = if e.ballot == ballot then [] else elim e.request [
  | none ↦ []
  | some r ↦ forward (owner ballot) r ∷ recover_from self ballot slot ∷ []
]

-- the retroscope record and the reply at the end of the loop's body
abbrev pub commit_notes : Config → Bool → ℕ → Entry → List Out
commit_notes c reply_when_commit slot e =
    (if c.use_retro_log then retro slot e.command ∷ [] else [])
    ++ (if reply_when_commit
        then elim e.request [
          | none ↦ []
          | some r ↦
              reply r (record { command = r.command; value = none; timestamp = r.timestamp }) ∷ []
        ]
        else [])

-- the loop of `HandleP3`
unfoldable pub commit_slots : Config → ℕ → List ℕ → PigPaxos → PigPaxos
commit_slots c ballot [] p = p
commit_slots c ballot (slot ∷ rest) p =
    let old = lookup slot p.log in
    let e = commit_at ballot old in
    commit_slots c ballot rest (record p {
      next_slot = max p.next_slot (slot + 1);
      log = insert slot e p.log;
      out = p.out ++ commit_sends p.id ballot slot old ++ commit_notes c p.reply_when_commit slot e;
    })

-- `HandleP3`
unfoldable pub handle_p3 : Config → P3 → PigPaxos → PigPaxos
handle_p3 c m p = exec (commit_slots c m.ballot m.slots p)

-- `HandleP2a`
unfoldable pub handle_p2a : Config → P2a → ℕ → PigPaxos → PigPaxos
handle_p2a c m to p =
    let p' = vote_p2a m to p in if ltb 0 (length m.p3msg.slots) then handle_p3 c m.p3msg p' else p'

-- the answer of `HandleP3RecoverRequest` from the entry at the slot
unfoldable pub answer_recovery : P3RecoverRequest → Option Entry → PigPaxos → PigPaxos
answer_recovery m none p = p
answer_recovery m (some e) p =
    if e.commit
    then emit
        (send m.node_id
          (recover_reply (record { ballot = e.ballot; slot = m.slot; command = e.command })))
        p
    else p

-- `HandleP3RecoverRequest`
unfoldable pub handle_recover_request : P3RecoverRequest → PigPaxos → PigPaxos
handle_recover_request m p = exec (answer_recovery m (lookup m.slot p.log) p)

-- the log of `HandleP3RecoverReply`, from the entry at the slot
unfoldable pub recovered_log : P3RecoverReply → Option Entry → List (ℕ × Entry) → List (ℕ × Entry)
recovered_log m none log = log
recovered_log m (some e) log =
    insert m.slot (record e { command = m.command; ballot = m.ballot; commit = true }) log

-- `HandleP3RecoverReply`
unfoldable pub handle_recover_reply : P3RecoverReply → PigPaxos → PigPaxos
handle_recover_reply m p = exec (record p {
  next_slot = max p.next_slot (m.slot + 1);
  log = recovered_log m (lookup m.slot p.log) p.log;
})

-- ===== src/Paxos/Commit.antt =====
-- `HandleP3` and the recovery of slots; with it the whole of `HandleP2a`.
use pigpaxos.Prelude.{
  ℕ, ◌+◌, max, List, [], ◌∷◌, ◌++◌, Option, none, some, Bool, true, ◌==◌, ltb, if◌then◌else◌,
  length,
}
use pigpaxos.Prelude.Assoc.{lookup, insert}
use pigpaxos.Ballot.{owner}
use pigpaxos.Db.{Command}
use pigpaxos.Pig.Msg.{P2a, P3}
use pigpaxos.Pig.State.{Entry}
use pigpaxos.Pig.Commit.{commit_at}
use pigpaxos.Paxos.State.{
  RecoverRequest, RecoverReply, Sent, forward, reply, recover_reply, Paxos, emit, recover_from,
}
use pigpaxos.Paxos.Exec.{exec}
use pigpaxos.Paxos.Accept.{vote_p2a}

-- what `HandleP3` sends for the old entry of a slot
abbrev pub commit_sends : ℕ → ℕ → ℕ → Option Entry → List Sent
commit_sends self ballot slot none = []
commit_sends self ballot slot (some e) = if e.ballot == ballot then [] else elim e.request [
  | none ↦ []
  | some r ↦ forward (owner ballot) r ∷ recover_from self ballot (slot ∷ []) ∷ []
]

-- the reply at the end of the loop's body
abbrev pub commit_replies : Bool → Entry → List Sent
commit_replies reply_when_commit e =
    if reply_when_commit
    then elim e.request [
      | none ↦ []
      | some r ↦
          reply r (record { command = r.command; value = none; timestamp = r.timestamp }) ∷ []
    ]
    else []

-- the loop of `HandleP3`; the new entry of a slot is that of pigpaxos/pigpaxos.go
unfoldable pub commit_slots : ℕ → List ℕ → Paxos → Paxos
commit_slots ballot [] p = p
commit_slots ballot (slot ∷ rest) p =
    let old = lookup slot p.log in
    let e = commit_at ballot old in
    commit_slots ballot rest (record p {
      next_slot = max p.next_slot (slot + 1);
      log = insert slot e p.log;
      out = p.out ++ commit_sends p.id ballot slot old ++ commit_replies p.reply_when_commit e;
    })

-- `HandleP3`
unfoldable pub handle_p3 : P3 → Paxos → Paxos
handle_p3 m p = exec (commit_slots m.ballot m.slots p)

-- `HandleP2a`
unfoldable pub handle_p2a : P2a → Paxos → Paxos
handle_p2a m p =
    let p' = vote_p2a m p in if ltb 0 (length m.p3msg.slots) then handle_p3 m.p3msg p' else p'

-- the loop of `HandleP3RecoverRequest`: the slots that are committed, with their commands
unfoldable pub recoverable : List (ℕ × Entry) → List ℕ → List (ℕ × Command)
recoverable log [] = []
recoverable log (slot ∷ slots) =
    let rest = recoverable log slots in
    elim (lookup slot log) [
      | none ↦ rest
      | some e ↦ if e.commit then (slot, e.command) ∷ rest else rest
    ]

abbrev pub firsts : List (ℕ × Command) → List ℕ
firsts [] = []
firsts ((s, c) ∷ rest) = s ∷ firsts rest

abbrev pub seconds : List (ℕ × Command) → List Command
seconds [] = []
seconds ((s, c) ∷ rest) = c ∷ seconds rest

-- `HandleP3RecoverRequest`
unfoldable pub handle_recover_request : RecoverRequest → Paxos → Paxos
handle_recover_request m p =
    let found = recoverable p.log m.slots in
    emit
      (recover_reply m.node_id
        (record { ballot = p.ballot; slots = firsts found; commands = seconds found }))
      p

-- the loop of `HandleP3RecoverReply`; `none` is the panic at a slot without a command
unfoldable pub recover_slots : ℕ → ℕ → List ℕ → List Command → Paxos → Option Paxos
recover_slots now ballot [] commands p = some p
recover_slots now ballot (slot ∷ slots) [] p = none
recover_slots now ballot (slot ∷ slots) (c ∷ commands) p =
    recover_slots now ballot slots commands (record p {
      next_slot = max p.next_slot (slot + 1);
      log =
          insert slot
            (record {
              ballot = ballot;
              command = c;
              commit = true;
              request = none;
              quorum = none;
              timestamp = now;
            })
            p.log;
    })

-- `HandleP3RecoverReply`
unfoldable pub handle_recover_reply : ℕ → RecoverReply → Paxos → Option Paxos
handle_recover_reply now m p = elim (recover_slots now m.ballot m.slots m.commands p) [
  | none ↦ none
  | some q ↦ some (exec q)
]

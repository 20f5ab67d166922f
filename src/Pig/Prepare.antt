-- ===== src/Pig/Prepare.antt =====
-- Phase 1: `P1a`, `RetryP1a`, `HandleP1a`, `update`. A handler takes the reading `now` of the clock.
use pigpaxos.Prelude.{
  ℕ, zero, suc, ◌+◌, ◌-◌, max, List, [], ◌∷◌, ◌++◌, Option, none, some, false, not, ◌&&◌, ltb,
  if◌then◌else◌,
}
use pigpaxos.Prelude.Assoc.{lookup, insert}
use pigpaxos.Ballot.{next}
use pigpaxos.Quorum.{ack, reset}
use pigpaxos.Pig.Msg.{CommandBallot, P1a, prepare, promise}
use pigpaxos.Pig.State.{Entry, broadcast, send, PigPaxos, emit, forward_requests}

-- `P1a`
unfoldable pub start_p1a : ℕ → PigPaxos → PigPaxos
start_p1a now p =
    if p.active
    then p
    else (let b = next p.ballot p.id in
        record p {
          ballot = b;
          quorum = ack (reset p.quorum) p.id;
          p1a_time = now;
          out = p.out ++ broadcast (prepare (record { ballot = b })) ∷ [];
        })

-- `RetryP1a`
unfoldable pub retry_p1a : ℕ → PigPaxos → PigPaxos
retry_p1a now p = if p.active then p else record p {
  quorum = ack (reset p.quorum) p.id;
  p1a_time = now;
  out = p.out ++ broadcast (prepare (record { ballot = p.ballot })) ∷ [];
}

-- `p.log[s] == nil || p.log[s].commit` is skipped
abbrev pub report : ℕ → Option Entry → List (ℕ × CommandBallot)
report s none = []
report s (some e) =
    if e.commit then [] else (s, record { command = e.command; ballot = e.ballot }) ∷ []

-- the loop of `HandleP1a` over `rounds` slots from `s` on
unfoldable pub uncommitted : List (ℕ × Entry) → ℕ → ℕ → List (ℕ × CommandBallot)
uncommitted log s zero = []
uncommitted log s (suc rounds) = report s (lookup s log) ++ uncommitted log (s + 1) rounds

-- the `new leader` branch of `HandleP1a`
unfoldable pub adopt : P1a → PigPaxos → PigPaxos
adopt m p =
    if ltb p.ballot m.ballot
    then forward_requests (record p { ballot = m.ballot; active = false })
    else p

-- `HandleP1a`
unfoldable pub handle_p1a : P1a → ℕ → PigPaxos → PigPaxos
handle_p1a m to p =
    let p' = adopt m p in
    emit
      (send to (
        promise (record {
          id = p'.id;
          ballot = p'.ballot;
          log = uncommitted p'.log p'.execute (p'.next_slot - p'.execute);
        })))
      p'

-- The part of a node that `update` changes.
pub record Slots : Type 0 where
  pub log : List (ℕ × Entry)
  pub next_slot : ℕ

abbrev pub merge : CommandBallot → Option Entry → Entry
merge cb none = record {
  ballot = cb.ballot;
  command = cb.command;
  commit = false;
  request = none;
  quorum = none;
  timestamp = 0;
}
merge cb (some e) =
    if not e.commit && ltb e.ballot cb.ballot
    then record e { ballot = cb.ballot; command = cb.command }
    else e

-- `update`; an entry that is left alone is written back unchanged
unfoldable pub update : List (ℕ × CommandBallot) → Slots → Slots
update [] x = x
update ((s, cb) ∷ rest) x = update rest (record {
  log = insert s (merge cb (lookup s x.log)) x.log;
  next_slot = max x.next_slot (s + 1);
})

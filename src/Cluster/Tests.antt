-- ===== src/Cluster/Tests.antt =====
-- Runs of three nodes on concrete requests.
use pigpaxos.Prelude.{◌≡◌, refl, [], ◌∷◌, none, some, true, false, arith}
use pigpaxos.Prelude.Assoc.{lookup}
use pigpaxos.Ballot.{owner}
use pigpaxos.Db.{Command}
use pigpaxos.Pig.Msg.{Request, P2a}
use pigpaxos.Pig.State.{Entry}
use pigpaxos.Pig.Lasting.{Chosen}
use pigpaxos.Pig.Proposals.{HasProposed}
use pigpaxos.Cluster.{Nodes, put, Cluster}
use pigpaxos.Cluster.Agreement.{agreement_in_a_ballot}
use pigpaxos.Cluster.Disagreement.{
  three, a, b, c, ballot_a, ballot_c, after, after_committed_too, committed_too_run, disagreement,
}

-- a write of each client to the same key
abbrev put_seven : Command
put_seven = record { key = 7; value = some (70 ∷ []); client_id = a; command_id = 1 }

abbrev put_eight : Command
put_eight = record { key = 7; value = some (80 ∷ []); client_id = c; command_id = 1 }

abbrev ask : Request
ask = record { command = put_seven; timestamp = 5; node_id = a; channel = 0 }

abbrev ask_too : Request
ask_too = record { command = put_eight; timestamp = 6; node_id = c; channel = 0 }

disagreement_example :
    (nodes : Nodes) × Cluster three false nodes
    × Chosen 0 ballot_a put_seven (nodes a).log
    × Chosen 0 ballot_c put_eight (nodes c).log
    × ((nodes a).execute ≡ 1)
    × ((nodes c).execute ≡ 1)
disagreement_example = disagreement ask ask_too

abbrev last : Nodes
last = after_committed_too ask ask_too

abbrev at_a : Entry
at_a = record {
  ballot = ballot_a;
  command = put_seven;
  commit = true;
  request = none;
  quorum = some (record { size = 2; acks = b ∷ a ∷ []; zones = (1, 2) ∷ []; nacks = none });
  timestamp = 2_000_000;
}

abbrev at_b : Entry
at_b = record {
  ballot = ballot_a;
  command = put_seven;
  commit = true;
  request = none;
  quorum = none;
  timestamp = 0;
}

log_a : lookup 0 (last a).log ≡ some at_a
unfolding after put
log_a = refl

log_b : lookup 0 (last b).log ≡ some at_b
unfolding after put
log_b = refl

agreement_in_a_ballot_example :
    (put_seven ≡ put_seven)
    × ((m : P2a) × HasProposed (last (owner ballot_a)) m
        × (m.ballot ≡ ballot_a)
        × (m.slot ≡ 0)
        × (m.command ≡ put_seven))
agreement_in_a_ballot_example =
    agreement_in_a_ballot three false last a b 0 at_a at_b (committed_too_run ask ask_too) log_a
      log_b refl (omega arith)

-- ===== src/Pig/Tests.antt =====
-- Runs of a node of three on concrete calls.
mod Runs
use pigpaxos.Prelude.{
  ℕ, ◌+◌, ◌*◌, ◌^◌, ◌<◌, ◌≤◌, ◌≡◌, refl, [], ◌∷◌, none, some, true, false, arith,
}
use pigpaxos.Prelude.Assoc.{lookup, insert, erase, increment}
use pigpaxos.Id.{zone_of, node_of, new_id}
use pigpaxos.Ballot.{owner, number, next, new_ballot}
use pigpaxos.Quorum.{Quorum, majority, ack}
use pigpaxos.Quorum.Valid.{ack_all}
use pigpaxos.Config.{Config}
use pigpaxos.Db.{Command, equal}
use pigpaxos.Db
use pigpaxos.Pig.Exec.{exec, exec_loop}
use pigpaxos.Pig.Prepare.{start_p1a, retry_p1a, uncommitted, adopt, handle_p1a, update}
use pigpaxos.Pig.Accept.{
  start_p2a, retry_p2a, handle_request, repropose_at, repropose_log, repropose_out, propose_all,
  lead, count_promise, merge_promise, handle_p1b, accept_p2a, vote_p2a, step_down, after_commit,
  commit_entry, count_votes, handle_p2b,
}
use pigpaxos.Pig.Commit.{
  commit_slots, handle_p3, handle_p2a, handle_recover_request, handle_recover_reply,
}
use pigpaxos.Pig.Maintain.{
  retry_slot, retry, check_timeout, update_executed, least_marker, cleanup_marker, delete_slots,
  cleanup_log,
}
use pigpaxos.Pig.Msg
use pigpaxos.Pig.Msg.{Request, P1a, P1b, P2a, P3}
use pigpaxos.Pig.State.{Entry, PigPaxos, new_pig_paxos, forward_requests, emit, send}
use pigpaxos.Pig.Ballots.{Advances, Reach-Advances}
use pigpaxos.Pig.Invariant.Calls.{IsValid, new_pig_paxos-IsValid}
use pigpaxos.Pig.Invariant.Runs.{handle-IsValid}
use pigpaxos.Pig.Promises.{Promised, refuse, handle_p1a_lem, stale_p2a_rejected}
use pigpaxos.Pig.Frame.{SameRole}
use pigpaxos.Pig.Running.{KeysBelow, Ran, executor, is_stopped, exec_lem}
use pigpaxos.Pig.Durable.{SameProposal, CleanedUp, commit_needs_majority, cleanup_log_lem}
use pigpaxos.Pig.Step.{Event, request, promise, accepted, handle, here, later}

-- the nodes 1.1, 1.2 and 1.3
abbrev pub three : Config
three = record { n = 3; z = 1; npz = (1, 3) ∷ []; use_retro_log = false }

abbrev pub one : ℕ
one = 65537

abbrev pub two : ℕ
two = 65538

abbrev pub put_seven : Command
put_seven = record { key = 7; value = some (70 ∷ []); client_id = one; command_id = 1 }

abbrev pub ask : Request
ask = record { command = put_seven; timestamp = 5; node_id = one; channel = 0 }

unfoldable pub after : Event → PigPaxos → PigPaxos
unfolding handle handle_request handle_p1a handle_p1b handle_p2a handle_p2b handle_p3
    handle_recover_request handle_recover_reply check_timeout update_executed cleanup_log start_p1a
    start_p2a merge_promise count_promise lead update majority forward_requests repropose_log
    repropose_out repropose_at propose_all count_votes step_down commit_entry after_commit exec
    exec_loop adopt uncommitted vote_p2a accept_p2a commit_slots retry retry_slot retry_p2a
    retry_p1a delete_slots cleanup_marker least_marker ack zone_of node_of new_id owner number next
    new_ballot lookup insert erase increment ack_all equal Db.execute
after e p = elim (handle three e p) [ none ↦ p | some q ↦ q ]

abbrev pub start : PigPaxos
start = new_pig_paxos one false

abbrev pub first : ℕ
first = 4_295_032_833

abbrev pub ask_event : Event
ask_event = request 1_000_000 ask

abbrev pub promise_event : Event
promise_event = promise 2_000_000 (record { id = two; ballot = first; log = [] })

abbrev pub accepted_event : Event
accepted_event = accepted 3_000_000 0 first (two ∷ [])

abbrev pub asked : PigPaxos
asked = after ask_event start

abbrev pub leading : PigPaxos
leading = after promise_event asked

abbrev pub done : PigPaxos
done = after accepted_event leading

-- The node leads after the promise of one other node, and runs the command after its vote.
done_execute : (done.execute ≡ 1) × (done.ballot ≡ first) × (done.next_slot ≡ 1)
unfolding after
done_execute = (refl, refl, refl)

pub ask_step : handle three ask_event start ≡ some asked
unfolding after
ask_step = refl

pub promise_step : handle three promise_event asked ≡ some leading
unfolding after
promise_step = refl

pub accepted_step : handle three accepted_event leading ≡ some done
unfolding after
accepted_step = refl

pub number_start : number start.ballot + 1 < 2 ^ 32
unfolding number
number_start = omega arith

pub number_asked : number asked.ballot + 1 < 2 ^ 32
unfolding after
number_asked = omega arith

pub number_leading : number leading.ballot + 1 < 2 ^ 32
unfolding after
number_leading = omega arith

id_leading : leading.id < 2 ^ 32
unfolding after
id_leading = omega arith

id_asked : asked.id < 2 ^ 32
unfolding after
id_asked = omega arith

asked-IsValid : IsValid asked
asked-IsValid =
    handle-IsValid three ask_event start asked number_start (omega arith) tt ask_step
      (new_pig_paxos-IsValid one false)

leading-IsValid : IsValid leading
leading-IsValid =
    handle-IsValid three promise_event asked leading number_asked id_asked tt promise_step
      asked-IsValid

pub done-IsValid : IsValid done
done-IsValid =
    handle-IsValid three accepted_event leading done number_leading id_leading tt accepted_step
      leading-IsValid

handle-IsValid_example : IsValid done
handle-IsValid_example =
    handle-IsValid three accepted_event leading done number_leading id_leading tt accepted_step
      leading-IsValid

Reach-Advances_example : Advances start done
Reach-Advances_example = Reach-Advances {c = three} {p = start} {q = done} (omega arith) (
    later
      (later (later here ask_event number_start ask_step) promise_event number_asked promise_step)
      accepted_event number_leading accepted_step)

abbrev lower : P2a
lower = record {
  ballot = 5;
  slot = 0;
  global_execute = 0;
  command = put_seven;
  p3msg = record { ballot = 5; slots = 7 ∷ [] };
}

ballot_done : 5 < asked.ballot
unfolding after
ballot_done = omega arith

stale_p2a_rejected_example :
    (handle_p2a three lower two done
      ≡ handle_p3 three (record { ballot = 5; slots = 7 ∷ [] }) (refuse lower two done))
    × (5 < done.ballot)
    × SameRole done (handle_p2a three lower two done)
stale_p2a_rejected_example =
    stale_p2a_rejected three asked done lower two id_asked
      (later (later here promise_event number_asked promise_step) accepted_event number_leading
        accepted_step)
      ballot_done

handle_p1a_lem_example : Promised (record { ballot = 2 * first }) two leading
handle_p1a_lem_example = handle_p1a_lem (record { ballot = 2 * first }) two leading

-- A committed slot below a missing one.
abbrev ready : PigPaxos
ready = record start {
  log =
      (
        0,
        record {
          ballot = first;
          command = put_seven;
          commit = true;
          request = some ask;
          quorum = none;
          timestamp = 0;
        },
      )
      ∷ [];
  next_slot = 3;
  executed_by_node = (two, 1) ∷ [];
}

ready-KeysBelow : KeysBelow 3 ready.log
unfolding lookup
ready-KeysBelow s e h = ground arith

exec_lem_example :
    Ran (executor ready) (executor (exec ready))
    × (is_stopped (exec ready).log (exec ready).execute ≡ true)
exec_lem_example = exec_lem ready ready-KeysBelow

cleanup_log_lem_example : CleanedUp (exec ready)
cleanup_log_lem_example = cleanup_log_lem (exec ready)

-- The first entry of the leader, before and after the vote.
abbrev proposed : Entry
proposed = record {
  ballot = first;
  command = put_seven;
  commit = false;
  request = some ask;
  quorum = some (record { size = 1; acks = one ∷ []; zones = (1, 1) ∷ []; nacks = none });
  timestamp = 2_000_000;
}

abbrev voted : Quorum
voted = record { size = 2; acks = two ∷ one ∷ []; zones = (1, 2) ∷ []; nacks = none }

abbrev pub finished : Entry
finished = record proposed { commit = true; request = none; quorum = some voted }

leading_log : lookup 0 leading.log ≡ some proposed
unfolding after
leading_log = refl

pub done_log : lookup 0 done.log ≡ some finished
unfolding after
done_log = refl

done_run : handle_p2b three 3_000_000 0 first (two ∷ []) leading ≡ some done
unfolding after
done_run = refl

commit_needs_majority_example :
    (old : Quorum) × (proposed.quorum ≡ some old)
    × (first ≡ proposed.ballot)
    × (majority three (ack_all old (two ∷ [])) ≡ true)
    × SameProposal proposed finished
commit_needs_majority_example =
    commit_needs_majority three 3_000_000 0 first (two ∷ []) proposed finished leading done
      leading_log refl done_run done_log refl

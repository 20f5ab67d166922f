-- ===== src/Paxos/Tests.antt =====
-- A node on concrete calls.
use pigpaxos.Prelude.{ℕ, ◌≤◌, ◌≡◌, refl, [], ◌∷◌, none, some, true, false, arith, contains}
use pigpaxos.Prelude.Assoc.{lookup, insert}
use pigpaxos.Db.{Command}
use pigpaxos.Db
use pigpaxos.Pig.Msg.{P2a, P3}
use pigpaxos.Pig.Running.{KeysBelow}
use pigpaxos.Paxos.State.{Paxos, new_paxos, zero_markers}
use pigpaxos.Paxos.Exec.{execute_entry, exec, exec_loop}
use pigpaxos.Paxos.Accept.{accept_p2a, vote_p2a}
use pigpaxos.Paxos.Commit.{commit_slots, handle_p3, handle_p2a}
use pigpaxos.Paxos.Running.{Ran, is_stopped, exec_runs_committed}
use pigpaxos.Paxos.Unseen.{late_entry, Skipped, late_command_never_runs}

abbrev first : ℕ
first = 4_295_032_833

abbrev put_seven : Command
put_seven = record { key = 7; value = some (70 ∷ []); client_id = 65537; command_id = 1 }

unfoldable start : Paxos
unfolding new_paxos zero_markers insert
start = new_paxos 65537 (65537 ∷ 65538 ∷ 65539 ∷ []) false

start_log : lookup start.execute start.log ≡ none
unfolding start lookup
start_log = refl

-- A P3 of the slots 2, 0 and 0 again, and a P2a for slot 0 that comes after it.
abbrev marks : P3
marks = record { ballot = first; slots = 2 ∷ 0 ∷ 0 ∷ [] }

abbrev late : P2a
late = record {
  ballot = first;
  slot = 0;
  global_execute = 0;
  command = put_seven;
  p3msg = record { ballot = 0; slots = [] };
}

start_low : start.ballot ≤ late.ballot
unfolding start
start_low = omega arith

start_slot : late.slot ≡ start.execute
unfolding start
start_slot = refl

start_named : contains marks.slots start.execute ≡ true
unfolding start
start_named = refl

late_command_never_runs_example : Skipped start late (handle_p2a late (handle_p3 marks start))
late_command_never_runs_example =
    late_command_never_runs start marks late start_log start_named start_slot start_low refl

-- The put of slot 0 is not in the database.
late_command_result : Db.get (handle_p2a late (handle_p3 marks start)).db 7 ≡ none
unfolding start handle_p2a handle_p3 commit_slots exec exec_loop execute_entry vote_p2a accept_p2a
    lookup insert Db.get Db.execute Db.put
late_command_result = refl

-- A committed slot below an open one.
abbrev ready : Paxos
ready = record start {
  log = (0, late_entry late) ∷ (1, record (late_entry late) { commit = false }) ∷ [];
  next_slot = 2;
}

ready-KeysBelow : KeysBelow ready.next_slot ready.log
unfolding lookup
ready-KeysBelow s e h = ground arith

ready_execute : (exec ready).execute ≡ 1
unfolding start exec exec_loop execute_entry lookup insert
ready_execute = refl

exec_runs_committed_example :
    Ran ready (exec ready) × (is_stopped (exec ready).log (exec ready).execute ≡ true)
exec_runs_committed_example = exec_runs_committed ready ready-KeysBelow

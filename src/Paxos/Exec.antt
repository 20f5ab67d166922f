-- ===== src/Paxos/Exec.antt =====
-- `exec`: run the committed slots in order, whether their command has arrived or not.
use pigpaxos.Prelude.{ℕ, zero, suc, ◌+◌, ◌-◌, List, [], ◌∷◌, ◌++◌, none, some, true, false}
use pigpaxos.Prelude.Assoc.{lookup, insert}
use pigpaxos.Db.{Value, Database}
use pigpaxos.Db
use pigpaxos.Pig.State.{Entry}
use pigpaxos.Paxos.State.{Sent, reply, Paxos}

-- the reply to the request of an entry; its properties are not modelled
abbrev pub answer : Entry → Value → List Sent
answer e v = elim e.request [
  | none ↦ []
  | some r ↦ reply r (record { command = e.command; value = v; timestamp = 0 }) ∷ []
]

-- the part of the loop's body behind the `break`
unfoldable pub execute_entry : Entry → Paxos → Paxos
execute_entry e p =
    let (v, d) = Db.execute p.db e.command in
    record p {
      log = insert p.execute (record e { request = none }) p.log;
      execute = p.execute + 1;
      db = d;
      out = p.out ++ answer e v;
    }

-- the loop over at most `fuel` slots
unfoldable pub exec_loop : ℕ → Paxos → Paxos
exec_loop zero p = p
exec_loop (suc fuel) p = elim (lookup p.execute p.log) [
  | none ↦ p
  | some e ↦ elim e.commit [ false ↦ p | true ↦ exec_loop fuel (execute_entry e p) ]
]

-- `exec`: every slot of the log is below `next_slot`, so the loop ends by its `break`.
unfoldable pub exec : Paxos → Paxos
exec p = exec_loop (p.next_slot - p.execute + 1) p

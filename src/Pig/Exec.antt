-- ===== src/Pig/Exec.antt =====
-- `exec`: run the committed slots in order.
use pigpaxos.Prelude.{
  ℕ, zero, suc, ◌+◌, ◌-◌, List, [], ◌∷◌, ◌++◌, none, some, Bool, true, false, not, ◌&&◌, ◌||◌, ◌==◌,
  ltb, if◌then◌else◌,
}
use pigpaxos.Prelude.Assoc.{lookup, insert}
use pigpaxos.Db.{Value, Database}
use pigpaxos.Db
use pigpaxos.Pig.State.{Entry, Out, reply, PigPaxos, recover_from}

-- The part of a node that the loop changes.
pub record Executor : Type 0 where
  pub log : List (ℕ × Entry)
  pub execute : ℕ
  pub db : Database
  pub out : List Out

-- a committed slot whose command never arrived has ballot 0
abbrev pub is_unknown : Entry → Bool
is_unknown e = e.commit && e.ballot == 0

-- `go e.request.Reply(reply); e.request = nil`
abbrev pub answer : Entry → Value → List Out
answer e v = elim e.request [
  | none ↦ []
  | some r ↦ reply r (record { command = e.command; value = v; timestamp = 0 }) ∷ []
]

-- the part of the loop's body behind the `break`
unfoldable pub execute_entry : Entry → Executor → Executor
execute_entry e x =
    let (v, d) = Db.execute x.db e.command in
    record {
      log = insert x.execute (record e { request = none }) x.log;
      execute = x.execute + 1;
      db = d;
      out = x.out ++ answer e v;
    }

-- `self` and `ballot` are the node's, `next_slot` is `p.slot + 1`
module _ (self ballot next_slot : ℕ) where
  unfoldable pub ask_recovery : Entry → Executor → Executor
  ask_recovery e x =
      if ltb (x.execute + 11) next_slot && is_unknown e
      then record x { out = x.out ++ recover_from self ballot x.execute ∷ [] }
      else x

  -- the loop over at most `fuel` slots
  unfoldable pub exec_loop : ℕ → Executor → Executor
  unfolding ask_recovery execute_entry lookup
  exec_loop zero x = x
  exec_loop (suc fuel) x = elim (lookup x.execute x.log) [
    | none ↦ x
    | some e ↦
        let x' = ask_recovery e x in
        elim (not e.commit || is_unknown e) [
          | true ↦ x'
          | false ↦ exec_loop fuel (execute_entry e x')
        ]
  ]

-- `exec`: every slot of the log is below `next_slot`, so the loop ends by its `break`.
unfoldable pub exec : PigPaxos → PigPaxos
exec p =
    let x =
      exec_loop p.id p.ballot p.next_slot (p.next_slot - p.execute + 1)
        (record { log = p.log; execute = p.execute; db = p.db; out = p.out }) in
    record p { log = x.log; execute = x.execute; db = x.db; out = x.out }

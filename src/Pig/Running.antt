-- ===== src/Pig/Running.antt =====
-- What `exec` runs: the longest committed prefix of the log that is known, once and in order.
use mathlib.Core.Option
use pigpaxos.Prelude.{
  ℕ, zero, suc, ◌+◌, ◌-◌, ◌≤◌, ◌<◌, ◌≡◌, ◌≢◌, refl, ap, ◌∙◌, sym, List, [], ◌∷◌, none, some, Bool,
  true, not, ◌&&◌, ◌||◌, ◌==◌, ltb, leb, arith, Bool-cases, Option-cases, inl, inr, if◌then◌else◌,
}
use pigpaxos.Prelude.Assoc.{lookup, insert, lookup-insert}
use pigpaxos.Db.{Command, Database}
use pigpaxos.Db
use pigpaxos.Pig.State.{Entry, PigPaxos}
use pigpaxos.Pig.Exec.{Executor, is_unknown, ask_recovery, execute_entry, exec_loop, exec}

-- The commands of `rounds` slots from `s` on.
unfoldable pub commands : List (ℕ × Entry) → ℕ → ℕ → List Command
commands log s zero = []
commands log s (suc rounds) = elim (lookup s log) [
  | none ↦ commands log (s + 1) rounds
  | some e ↦ e.command ∷ commands log (s + 1) rounds
]

pub commands-insert :
    (k : ℕ) (e : Entry) (log : List (ℕ × Entry)) (s rounds : ℕ)
    → k < s
    → commands (insert k e log) s rounds ≡ commands log s rounds
unfolding commands
commands-insert k e log s zero h = refl
commands-insert k e log s (suc rounds) h =
    ground (arith, lookup-insert k s e log, commands-insert k e log (s + 1) rounds)

pub commands-step :
    (log : List (ℕ × Entry)) (s rounds : ℕ) (e : Entry)
    → lookup s log ≡ some e
    → commands log s (suc rounds) ≡ e.command ∷ commands log (s + 1) rounds
unfolding commands
commands-step log s rounds e h = rw (h, commands)

pub run-cons :
    (d : Database) (c : Command) (cs : List Command)
    → (Db.run d (c ∷ cs)).1 ≡ (Db.run (Db.execute d c).1 cs).1
unfolding Db.run
run-cons d c cs = refl

abbrev pub KeysBelow : ℕ → List (ℕ × Entry) → Type 0
KeysBelow n log = (s : ℕ) (e : Entry) → lookup s log ≡ some e → s < n

-- The loop cannot go on: the next slot is missing, not committed, or its command is unknown.
abbrev pub is_stopped : List (ℕ × Entry) → ℕ → Bool
is_stopped log s = elim (lookup s log) [ none ↦ true | some e ↦ not e.commit || is_unknown e ]

-- From `x` to `y` the slots from `x.execute` to `y.execute` were run.
pub record Ran (x y : Executor) : Type 0 where
  pub onward : x.execute ≤ y.execute
  pub ready :
      (s : ℕ)
      → x.execute ≤ s
      → s < y.execute
      → (e : Entry) × (lookup s x.log ≡ some e) × (e.commit ≡ true) × (e.ballot ≢ 0)
  pub result : y.db ≡ (Db.run x.db (commands x.log x.execute (y.execute - x.execute))).1
  pub kept :
      (s : ℕ)
      → lookup s y.log ≡ (
          if leb x.execute s && ltb s y.execute
          then Option.map (λ (e : Entry). record e { request = none }) (lookup s x.log)
          else lookup s x.log)

Ran-still : (x y : Executor) → y.execute ≡ x.execute → y.log ≡ x.log → y.db ≡ x.db → Ran x y
unfolding commands Db.run
Ran-still x y he hl hd = record {
  onward = omega arith;
  ready = λ s h k. absurd (omega arith);
  result = let none_run : y.execute - x.execute ≡ 0 = omega arith in rw none_run hd;
  kept = λ s. ground (arith, ap (lookup s) hl);
}

Ran-step :
    (e : Entry) (x y : Executor)
    → lookup x.execute x.log ≡ some e
    → e.commit ≡ true
    → e.ballot ≢ 0
    → Ran (execute_entry e x) y
    → Ran x y
unfolding execute_entry
Ran-step e x y has committed known r = record {
  onward = omega (arith, r.onward);
  ready = λ s h k. elim (Bool-cases (x.execute == s)) [
    | inl same ↦ (e, ground arith, committed, known)
    | inr other ↦
        let (f, at, done, named) = r.ready s (ground arith) k in
        (
          f,
          ground (arith, at, lookup-insert x.execute s (record e { request = none }) x.log),
          done,
          named,
        )
  ];
  result =
      r.result
      ∙ ap (λ cs. (Db.run (Db.execute x.db e.command).1 cs).1)
          (commands-insert x.execute (record e { request = none }) x.log (x.execute + 1)
            (y.execute - (x.execute + 1)) (omega arith))
      ∙ sym (run-cons x.db e.command (commands x.log (x.execute + 1) (y.execute - (x.execute + 1))))
      ∙ ap (λ cs. (Db.run x.db cs).1)
          (sym (commands-step x.log x.execute (y.execute - (x.execute + 1)) e has)
            ∙ ap (commands x.log x.execute) (omega (arith, r.onward)));
  kept = λ s.
      ground
        (arith, r.kept s, r.onward, lookup-insert x.execute s (record e { request = none }) x.log);
}

execute-execute_entry : (e : Entry) (x : Executor) → (execute_entry e x).execute ≡ x.execute + 1
unfolding execute_entry
execute-execute_entry e x = refl

KeysBelow-execute_entry :
    (n : ℕ) (e : Entry) (x : Executor)
    → KeysBelow n x.log
    → x.execute < n
    → KeysBelow n (execute_entry e x).log
unfolding execute_entry
KeysBelow-execute_entry n e x h k s f at =
    ground (arith, h s f, lookup-insert x.execute s (record e { request = none }) x.log)

Ran-from :
    (x' x y : Executor)
    → x'.execute ≡ x.execute
    → x'.log ≡ x.log
    → x'.db ≡ x.db
    → Ran x' y
    → Ran x y
Ran-from x' x y he hl hd r = record {
  onward = omega (arith, r.onward);
  ready = rw (← he, ← hl) r.ready;
  result = rw (← he, ← hl, ← hd) r.result;
  kept = rw (← he, ← hl) r.kept;
}

module _ (self ballot next_slot : ℕ) where
  ask_same :
      (e : Entry) (x : Executor)
      → ((ask_recovery self ballot next_slot e x).execute ≡ x.execute)
        × ((ask_recovery self ballot next_slot e x).log ≡ x.log)
        × ((ask_recovery self ballot next_slot e x).db ≡ x.db)
  unfolding ask_recovery
  ask_same e x = (ground arith, ground arith, ground arith)

  pub exec_loop-Ran : (fuel : ℕ) (x : Executor) → Ran x (exec_loop self ballot next_slot fuel x)
  unfolding exec_loop
  exec_loop-Ran zero x = Ran-still x x refl refl refl
  exec_loop-Ran (suc fuel) x = elim (Option-cases (lookup x.execute x.log)) [
    | inl nothing ↦ rw (nothing, exec_loop) (Ran-still x x refl refl refl)
    | inr (e, has) ↦ elim (Bool-cases (not e.commit || is_unknown e)) [
      | inl stop ↦
          let (a, b, c) = ask_same e x in
          rw (has, exec_loop) (rw stop (Ran-still x (ask_recovery self ballot next_slot e x) a b c))
      | inr go ↦
          let (a, b, c) = ask_same e x in
          rw (has, exec_loop)
            (rw go (
              Ran-from (ask_recovery self ballot next_slot e x) x _ a b c (
                Ran-step e (ask_recovery self ballot next_slot e x) _ (rw (a, b) has) (ground arith)
                  (ground arith)
                  (exec_loop-Ran fuel (execute_entry e (ask_recovery self ballot next_slot e x))))))
    ]
  ]

  exec_loop_stops :
      (fuel : ℕ) (x : Executor)
      → KeysBelow next_slot x.log
      → next_slot - x.execute < fuel
      → is_stopped
          (exec_loop self ballot next_slot fuel x).log
          (exec_loop self ballot next_slot fuel x).execute
        ≡ true
  unfolding exec_loop
  exec_loop_stops zero x h k = absurd (omega arith)
  exec_loop_stops (suc fuel) x h k = elim (Option-cases (lookup x.execute x.log)) [
    | inl nothing ↦ rw (nothing, exec_loop) (rw (nothing, is_stopped) refl)
    | inr (e, has) ↦ elim (Bool-cases (not e.commit || is_unknown e)) [
      | inl stop ↦
          let (a, b, c) = ask_same e x in
          rw (has, exec_loop) (rw stop (rw (a, b) (rw (has, is_stopped) stop)))
      | inr go ↦
          let (a, b, c) = ask_same e x in
          rw (has, exec_loop)
            (rw go (
              exec_loop_stops fuel (execute_entry e (ask_recovery self ballot next_slot e x))
                (KeysBelow-execute_entry next_slot e (ask_recovery self ballot next_slot e x)
                  (rw b h) (rw a (h x.execute e has)))
                (rw (execute-execute_entry e (ask_recovery self ballot next_slot e x))
                  (omega (arith, a, h x.execute e has)))))
    ]
  ]

abbrev pub executor : PigPaxos → Executor
executor p = record { log = p.log; execute = p.execute; db = p.db; out = p.out }

pub exec-Ran : (p : PigPaxos) → Ran (executor p) (executor (exec p))
unfolding exec
exec-Ran p =
    let r = exec_loop-Ran p.id p.ballot p.next_slot (p.next_slot - p.execute + 1) (executor p) in
    record { onward = r.onward; ready = r.ready; result = r.result; kept = r.kept }

-- If all slots of the log are below the slot counter, `exec` advances over committed slots whose
-- commands are known, runs exactly the commands of these slots in their order on the database,
-- leaves every entry as it was but for the answered requests, and stops where the next slot is
-- missing, uncommitted or unknown.
pub exec_lem :
    (p : PigPaxos)
    → KeysBelow p.next_slot p.log
    → Ran (executor p) (executor (exec p)) × (is_stopped (exec p).log (exec p).execute ≡ true)
unfolding exec
exec_lem p h = (
  exec-Ran p,
  exec_loop_stops p.id p.ballot p.next_slot (p.next_slot - p.execute + 1) (executor p) h
      (omega arith),
)

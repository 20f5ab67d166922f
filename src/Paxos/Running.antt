-- ===== src/Paxos/Running.antt =====
-- What `exec` runs: the committed prefix of the log, also where a command has never arrived.
use mathlib.Core.Option
use pigpaxos.Prelude.{
  ℕ, zero, suc, ◌+◌, ◌-◌, ◌≤◌, ◌<◌, ◌≡◌, refl, ap, ◌∙◌, sym, List, ◌∷◌, none, some, Bool, true, not,
  ◌&&◌, ◌==◌, ltb, leb, arith, Bool-cases, Option-cases, inl, inr, if◌then◌else◌,
}
use pigpaxos.Prelude.Assoc.{lookup, lookup-insert}
use pigpaxos.Db.{Command}
use pigpaxos.Db
use pigpaxos.Pig.State.{Entry}
use pigpaxos.Pig.Running.{commands, commands-insert, commands-step, run-cons, KeysBelow}
use pigpaxos.Paxos.State.{Paxos}
use pigpaxos.Paxos.Exec.{execute_entry, exec_loop, exec}

-- From `x` to `y` the slots from `x.execute` to `y.execute` were run.
pub record Ran (x y : Paxos) : Type 0 where
  pub onward : x.execute ≤ y.execute
  pub ready :
      (s : ℕ)
      → x.execute ≤ s
      → s < y.execute
      → (e : Entry) × (lookup s x.log ≡ some e) × (e.commit ≡ true)
  pub result : y.db ≡ (Db.run x.db (commands x.log x.execute (y.execute - x.execute))).1
  pub kept :
      (s : ℕ)
      → lookup s y.log ≡ (
          if leb x.execute s && ltb s y.execute
          then Option.map (λ (e : Entry). record e { request = none }) (lookup s x.log)
          else lookup s x.log)

Ran-refl : (x : Paxos) → Ran x x
unfolding commands Db.run
Ran-refl x = record {
  onward = omega arith;
  ready = λ s h k. absurd (omega arith);
  result = let none_run : x.execute - x.execute ≡ 0 = omega arith in rw none_run refl;
  kept = λ s. ground arith;
}

Ran-step :
    (e : Entry) (x y : Paxos)
    → lookup x.execute x.log ≡ some e
    → e.commit ≡ true
    → Ran (execute_entry e x) y
    → Ran x y
unfolding execute_entry
Ran-step e x y has done r =
    let rest = y.execute - (x.execute + 1) in
    let run_first : Entry = record e { request = none } in
    record {
      onward = omega (arith, r.onward);
      ready = λ s h k. elim (Bool-cases (x.execute == s)) [
        | inl same ↦ (e, ground arith, done)
        | inr other ↦
            let (f, at, committed) = r.ready s (ground arith) k in
            (f, ground (arith, at, lookup-insert x.execute s run_first x.log), committed)
      ];
      result =
          r.result
          ∙ ap (λ cs. (Db.run (Db.execute x.db e.command).1 cs).1)
              (commands-insert x.execute run_first x.log (x.execute + 1) rest (omega arith))
          ∙ sym (run-cons x.db e.command (commands x.log (x.execute + 1) rest))
          ∙ ap (λ cs. (Db.run x.db cs).1)
              (sym (commands-step x.log x.execute rest e has)
                ∙ ap (commands x.log x.execute) (omega (arith, r.onward)));
      kept = λ s. ground (arith, r.kept s, r.onward, lookup-insert x.execute s run_first x.log);
    }

pub exec_loop-Ran : (fuel : ℕ) (x : Paxos) → Ran x (exec_loop fuel x)
unfolding exec_loop
exec_loop-Ran zero x = Ran-refl x
exec_loop-Ran (suc fuel) x = elim (Option-cases (lookup x.execute x.log)) [
  | inl nothing ↦ rw (nothing, exec_loop) (Ran-refl x)
  | inr (e, has) ↦ elim (Bool-cases e.commit) [
    | inr open_yet ↦ rw (has, exec_loop) (rw open_yet (Ran-refl x))
    | inl done ↦
        rw (has, exec_loop)
          (rw done (Ran-step e x _ has done (exec_loop-Ran fuel (execute_entry e x))))
  ]
]

-- The loop cannot go on: the next slot is missing or not committed.
abbrev pub is_stopped : List (ℕ × Entry) → ℕ → Bool
is_stopped log s = elim (lookup s log) [ none ↦ true | some e ↦ not e.commit ]

KeysBelow-execute_entry :
    (n : ℕ) (e : Entry) (x : Paxos)
    → KeysBelow n x.log
    → x.execute < n
    → KeysBelow n (execute_entry e x).log
unfolding execute_entry
KeysBelow-execute_entry n e x h k s f at =
    ground (arith, h s f, lookup-insert x.execute s (record e { request = none }) x.log)

execute-execute_entry : (e : Entry) (x : Paxos) → (execute_entry e x).execute ≡ x.execute + 1
unfolding execute_entry
execute-execute_entry e x = refl

exec_loop_stops :
    (n fuel : ℕ) (x : Paxos)
    → KeysBelow n x.log
    → n - x.execute < fuel
    → is_stopped (exec_loop fuel x).log (exec_loop fuel x).execute ≡ true
unfolding exec_loop
exec_loop_stops n zero x h k = absurd (omega arith)
exec_loop_stops n (suc fuel) x h k = elim (Option-cases (lookup x.execute x.log)) [
  | inl nothing ↦ rw (nothing, exec_loop) (rw (nothing, is_stopped) refl)
  | inr (e, has) ↦ elim (Bool-cases e.commit) [
    | inr open_yet ↦ rw (has, exec_loop) (rw open_yet (rw (has, is_stopped) (rw open_yet refl)))
    | inl done ↦
        rw (has, exec_loop)
          (rw done (
            exec_loop_stops n fuel (execute_entry e x)
              (KeysBelow-execute_entry n e x h (h x.execute e has))
              (rw (execute-execute_entry e x) (omega (arith, k, h x.execute e has)))))
  ]
]

-- If all slots of the log are below the slot counter, `exec` of Multi-Paxos advances over committed
-- slots, runs exactly their commands in order on the database, leaves every entry as it was but for
-- the answered requests, and stops where the next slot is missing or uncommitted.
pub exec_runs_committed :
    (p : Paxos)
    → KeysBelow p.next_slot p.log
    → Ran p (exec p) × (is_stopped (exec p).log (exec p).execute ≡ true)
unfolding exec
exec_runs_committed p h = (
  exec_loop-Ran (p.next_slot - p.execute + 1) p,
  exec_loop_stops p.next_slot (p.next_slot - p.execute + 1) p h (omega arith),
)

pub exec_loop_first :
    (fuel : ℕ) (x : Paxos) (e : Entry)
    → lookup x.execute x.log ≡ some e
    → e.commit ≡ true
    → exec_loop (fuel + 1) x ≡ exec_loop fuel (execute_entry e x)
unfolding exec_loop
exec_loop_first fuel x e has done =
    let one : fuel + 1 ≡ suc fuel = omega arith in rw one (rw (has, exec_loop) (simp (done)))

-- Two logs that agree on the commands of their entries give the same commands to run.
pub commands-same :
    (log log' : List (ℕ × Entry)) (s rounds : ℕ)
    → ((t : ℕ)
        → Option.map (λ (e : Entry). e.command) (lookup t log')
          ≡ Option.map (λ (e : Entry). e.command) (lookup t log))
    → commands log' s rounds ≡ commands log s rounds
unfolding commands
commands-same log log' s zero h = refl
commands-same log log' s (suc rounds) h =
    let rest = commands-same log log' (s + 1) rounds h in
    elim (Option-cases (lookup s log)) [
      | inl nothing ↦ elim (Option-cases (lookup s log')) [
        | inl nothing' ↦ rw (nothing, nothing', commands) rest
        | inr (e', has') ↦ absurd (ground (arith, h s))
      ]
      | inr (e, has) ↦ elim (Option-cases (lookup s log')) [
        | inl nothing' ↦ absurd (ground (arith, h s))
        | inr (e', has') ↦
            let same : e'.command ≡ e.command = ground (arith, h s) in
            rw (has, has', commands) (rw same (ap (λ cs. e.command ∷ cs) rest))
      ]
    ]

pub commands-kept :
    (x y : Paxos)
    → Ran x y
    → (t : ℕ)
    → Option.map (λ (e : Entry). e.command) (lookup t y.log)
      ≡ Option.map (λ (e : Entry). e.command) (lookup t x.log)
commands-kept x y ran t = elim (Bool-cases (leb x.execute t && ltb t y.execute)) [
  | inl inside ↦ elim (Option-cases (lookup t x.log)) [
    | inl nothing ↦ rw (ran.kept t) (rw inside (rw nothing refl))
    | inr (e, has) ↦ rw (ran.kept t) (rw inside (rw has refl))
  ]
  | inr outside ↦ rw (ran.kept t) (rw outside refl)
]

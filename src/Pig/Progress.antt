-- ===== src/Pig/Progress.antt =====
-- A client's request is served: once enough nodes have voted, the leader runs it and answers.
use mathlib.Core.List.{Memᴰ}
use pigpaxos.Prelude.{
  ℕ, zero, suc, ◌+◌, ◌-◌, ◌≤◌, ◌<◌, ◌≡◌, ◌≢◌, refl, ap, sym, ◌∙◌, List, some, true, false, not,
  ◌&&◌, ◌||◌, ◌==◌, ltb, arith, inl, inr, Bool-cases, Option-cases, if_elim,
}
use pigpaxos.Prelude.Assoc.{lookup, lookup-insert}
use pigpaxos.Ballot.{owner}
use pigpaxos.Config.{Config}
use pigpaxos.Db.{Command, Value}
use pigpaxos.Db
use pigpaxos.Quorum.{Quorum, ack, majority}
use pigpaxos.Quorum.Valid.{ack_all}
use pigpaxos.Pig.Msg.{Request}
use pigpaxos.Pig.State.{Entry, Out, PigPaxos, reply}
use pigpaxos.Pig.Exec.{exec, Executor, execute_entry, ask_recovery, exec_loop, is_unknown}
use pigpaxos.Pig.Accept.{
  handle_request, start_p2a, step_down, after_commit, commit_entry, handle_p2b,
}
use mathlib.Core.List.Memᴰ.{append_left, append_right}
use pigpaxos.Quorum.{new_quorum}
use pigpaxos.Pig.Accept.{count_votes}
use pigpaxos.Pig.Running.{exec_loop-Ran}

module _ (self b n : ℕ) where
  ask_recovery-Mem :
      (e : Entry) (x : Executor) (o : Out) → Memᴰ o x.out → Memᴰ o (ask_recovery self b n e x).out
  unfolding ask_recovery
  ask_recovery-Mem e x o k =
      if_elim (λ (y : Executor). Memᴰ o y.out) (ltb (x.execute + 11) n && is_unknown e) _ _
        (λ asks. append_left _ k) (λ quiet. k)

  -- What the loop has sent stays sent.
  exec_loop-Mem :
      (fuel : ℕ) (x : Executor) (o : Out) → Memᴰ o x.out → Memᴰ o (exec_loop self b n fuel x).out
  unfolding exec_loop execute_entry
  exec_loop-Mem zero x o k = k
  exec_loop-Mem (suc fuel) x o k = elim (Option-cases (lookup x.execute x.log)) [
    | inl nothing ↦ rw (nothing, exec_loop) k
    | inr (e, has) ↦ elim (Bool-cases (not e.commit || is_unknown e)) [
      | inl stop ↦ rw (has, exec_loop) (rw stop (ask_recovery-Mem e x o k))
      | inr go ↦
          rw (has, exec_loop)
            (rw go (
              exec_loop-Mem fuel (execute_entry e (ask_recovery self b n e x)) o
                (append_left _ (ask_recovery-Mem e x o k))))
    ]
  ]

  ask_recovery_known : (e : Entry) (x : Executor) → e.ballot ≢ 0 → ask_recovery self b n e x ≡ x
  unfolding ask_recovery
  ask_recovery_known e x known = ground arith

  exec_loop_first :
      (fuel : ℕ) (x : Executor) (e : Entry)
      → lookup x.execute x.log ≡ some e
      → e.commit ≡ true
      → e.ballot ≢ 0
      → exec_loop self b n (fuel + 1) x ≡ exec_loop self b n fuel (execute_entry e x)
  unfolding exec_loop
  exec_loop_first fuel x e has done known =
      let go : (not e.commit || is_unknown e) ≡ false = ground arith in
      let one : fuel + 1 ≡ suc fuel = omega arith in
      rw one (
        rw (has, exec_loop)
          (rw go (
            ap (λ (y : Executor). exec_loop self b n fuel (execute_entry e y))
              (ask_recovery_known e x known))))

-- The reply to the request of an entry that is run on the database of `p`.
abbrev pub answered : PigPaxos → Command → Request → Out
answered p c r = reply r (record { command = c; value = (Db.execute p.db c).0; timestamp = 0 })

-- A committed entry at the execution point whose command is known is run, and its request answered.
exec_answers :
    (p : PigPaxos) (e : Entry) (r : Request)
    → lookup p.execute p.log ≡ some e
    → e.commit ≡ true
    → e.ballot ≢ 0
    → e.request ≡ some r
    → (p.execute < (exec p).execute) × Memᴰ (answered p e.command r) (exec p).out
unfolding exec execute_entry
exec_answers p e r has done known asked =
    let x : Executor = record { log = p.log; execute = p.execute; db = p.db; out = p.out } in
    let fuel = p.next_slot - p.execute in
    let first = exec_loop_first p.id p.ballot p.next_slot fuel x e has done known in
    let ran = exec_loop-Ran p.id p.ballot p.next_slot fuel (execute_entry e x) in
    (
      rw first (omega (arith, ran.onward)),
      rw first (
          exec_loop-Mem p.id p.ballot p.next_slot fuel (execute_entry e x) _
            (append_right p.out (rw asked (Memᴰ.head refl)))),
    )

step_down_same : (now b : ℕ) (p : PigPaxos) → b ≤ p.ballot → step_down now b p ≡ p
unfolding step_down
step_down_same now b p h = ground arith

count_votes_enough :
    (c : Config) (slot : ℕ) (ids : List ℕ) (e : Entry) (p : PigPaxos) (old : Quorum)
    → owner e.ballot ≡ p.id
    → e.quorum ≡ some old
    → majority c (ack_all old ids) ≡ true
    → p.reply_when_commit ≡ false
    → count_votes c slot e.ballot ids e p
      ≡ some (exec (commit_entry c slot (record e { quorum = some (ack_all old ids) }) p))
unfolding count_votes after_commit commit_entry
count_votes_enough c slot ids e p old mine voted enough runs =
    let test : (owner e.ballot == p.id && e.ballot == e.ballot) ≡ true = ground (arith, mine) in
    rw test (rw voted (rw enough (rw runs refl)))

-- A leader that runs what it commits and has votes enough for the entry at its execution point,
-- under a ballot that is its own and not above its present one, handles them without a panic: it runs
-- the command of the entry on its database and answers the request with the result.
pub votes_get_answered :
    (c : Config) (now : ℕ) (ids : List ℕ) (p : PigPaxos) (e : Entry) (old : Quorum) (r : Request)
    → lookup p.execute p.log ≡ some e
    → e.commit ≡ false
    → e.ballot ≢ 0
    → e.ballot ≤ p.ballot
    → e.quorum ≡ some old
    → e.request ≡ some r
    → owner e.ballot ≡ p.id
    → p.reply_when_commit ≡ false
    → majority c (ack_all old ids) ≡ true
    → (q : PigPaxos) × (handle_p2b c now p.execute e.ballot ids p ≡ some q)
      × (p.execute < q.execute)
      × Memᴰ (answered p e.command r) q.out
unfolding handle_p2b commit_entry
votes_get_answered c now ids p e old r has open_yet known below voted asked mine runs enough =
    let f : Entry = record e { quorum = some (ack_all old ids); commit = true } in
    let p' = commit_entry c p.execute (record e { quorum = some (ack_all old ids) }) p in
    let here : lookup p.execute p'.log ≡ some f =
      ground (arith, lookup-insert p.execute p.execute f p.log) in
    let new : (ltb e.ballot e.ballot || e.commit) ≡ false = ground arith in
    let (moved, replied) = exec_answers p' f r here refl known asked in
    (
      exec p',
      rw (has, handle_p2b)
          (rw new (
            ap (λ (x : PigPaxos). count_votes c p.execute e.ballot ids e x)
              (step_down_same now e.ballot p below)
            ∙ count_votes_enough c p.execute ids e p old mine voted enough runs)),
      moved,
      replied,
    )

-- An active leader, under a ballot of its own that is not 0, that has run its whole log and runs what
-- it commits, serves a new request: when votes for it make a majority with the leader's own, the leader
-- handles them without a panic, runs the command on its database and answers with the result.
pub request_gets_answered :
    (c : Config) (now later : ℕ) (ids : List ℕ) (p : PigPaxos) (r : Request)
    → p.active ≡ true
    → p.execute ≡ p.next_slot
    → p.ballot ≢ 0
    → owner p.ballot ≡ p.id
    → p.reply_when_commit ≡ false
    → majority c (ack_all (ack new_quorum p.id) ids) ≡ true
    → (q : PigPaxos) × (handle_p2b c later p.next_slot p.ballot ids (handle_request now r p)
        ≡ some q)
      × (p.execute < q.execute)
      × Memᴰ (answered p r.command r) q.out
unfolding handle_request start_p2a
request_gets_answered c now later ids p r leads ran known mine runs enough =
    let p' = start_p2a now p r in
    let e : Entry = record {
      ballot = p.ballot;
      command = r.command;
      commit = false;
      request = some r;
      quorum = some (ack new_quorum p.id);
      timestamp = now;
    } in
    let proposed : handle_request now r p ≡ p' = rw leads refl in
    let here : lookup p'.execute p'.log ≡ some e =
      ground (arith, lookup-insert p.next_slot p.execute e p.log, ran) in
    let (q, run, moved, replied) =
      votes_get_answered c later ids p' e (ack new_quorum p.id) r here refl known (omega arith) refl
        refl mine runs enough in
    (
      q,
      ap (handle_p2b c later p.next_slot p.ballot ids) proposed
          ∙ ap (λ (s : ℕ). handle_p2b c later s p.ballot ids p') (sym ran)
          ∙ run,
      moved,
      replied,
    )

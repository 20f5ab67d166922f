-- ===== src/Pig/Backed/Outs.antt =====
-- What the calls send besides promises and recovery replies.
use pigpaxos.Prelude.{
  ℕ, zero, suc, ◌+◌, ◌-◌, sym, ◌∙◌, List, [], ◌∷◌, Option, none, some, Bool, true, false, map, not,
  ◌&&◌, ◌||◌, ◌==◌, ltb, inl, inr, Bool-cases, Option-cases, if_elim, if◌then◌else◌,
}
use pigpaxos.Prelude.Assoc.{lookup}
use pigpaxos.Ballot.{owner}
use pigpaxos.Config.{Config}
use pigpaxos.Db.{Command, Value}
use pigpaxos.Db
use mathlib.Core.Path.{subst}
use pigpaxos.Pig.Msg.{Request, Reply, P2a}
use pigpaxos.Pig.State.{Entry, PigPaxos, forward, reply, retro, recover_from}
use pigpaxos.Pig.Exec.{exec, Executor, execute_entry, ask_recovery, exec_loop, is_unknown}
use pigpaxos.Pig.Accept.{repropose_out, accept_out}
use pigpaxos.Pig.Commit.{commit_sends, commit_notes}
use pigpaxos.Pig.Invariant.Logs.{lookup-exec}
use pigpaxos.Pig.Backed.{OutsBacked, Backed, OutsBacked-append}

module _ (B : ℕ → ℕ → Command → Type 0) where
  pub forwards-Backed : (to : ℕ) (rs : List Request) → OutsBacked B (map (forward to) rs)
  forwards-Backed to [] = tt
  forwards-Backed to (r ∷ rs) = (tt, forwards-Backed to rs)

  pub repropose_out-Backed :
      (b g : ℕ) (log : List (ℕ × Entry)) (s rounds : ℕ)
      → OutsBacked B (repropose_out b g log s rounds)
  unfolding repropose_out
  repropose_out-Backed b g log s zero = tt
  repropose_out-Backed b g log s (suc rounds) =
      let rest = repropose_out-Backed b g log (s + 1) rounds in
      elim (Option-cases (lookup s log)) [
        | inl nothing ↦ rw (nothing, repropose_out) rest
        | inr (e, has) ↦ elim (Bool-cases e.commit) [
          | inl done ↦ rw (has, repropose_out) (rw done rest)
          | inr open_yet ↦ rw (has, repropose_out) (rw open_yet (tt, rest))
        ]
      ]

  -- A slot that is asked for and a reply to a client carry nothing that needs backing.
  optional_reply :
      (o : Option Request) (a : Request → Reply)
      → OutsBacked B (elim o [ none ↦ [] | some r ↦ reply r (a r) ∷ [] ])
  optional_reply none a = tt
  optional_reply (some r) a = (tt, tt)

  pub retro-Backed :
      (t : Bool) (s : ℕ) (c : Command) → OutsBacked B (if t then retro s c ∷ [] else [])
  retro-Backed true s c = (tt, tt)
  retro-Backed false s c = tt

  pub accept_out-Backed : (m : P2a) (o : Option Entry) → OutsBacked B (accept_out m o)
  accept_out-Backed m none = tt
  accept_out-Backed m (some e) =
      if_elim (OutsBacked B)
        (not e.commit && ltb e.ballot m.ballot && not (Db.equal e.command m.command))
        (elim e.request [ none ↦ [] | some r ↦ forward (owner m.ballot) r ∷ [] ]) []
        (λ taken. forwarded e.request) (λ kept. tt)
    where
      forwarded :
          (o : Option Request)
          → OutsBacked B (elim o [ none ↦ [] | some r ↦ forward (owner m.ballot) r ∷ [] ])
      forwarded none = tt
      forwarded (some r) = (tt, tt)

  pub commit_sends-Backed :
      (self b s : ℕ) (o : Option Entry) → OutsBacked B (commit_sends self b s o)
  commit_sends-Backed self b s none = tt
  commit_sends-Backed self b s (some e) =
      if_elim (OutsBacked B) (e.ballot == b) []
        (elim e.request [ none ↦ [] | some r ↦ forward (owner b) r ∷ recover_from self b s ∷ [] ])
        (λ same. tt) (λ other. asked e.request)
    where
      asked :
          (o : Option Request)
          → OutsBacked B
              (elim o [ none ↦ [] | some r ↦ forward (owner b) r ∷ recover_from self b s ∷ [] ])
      asked none = tt
      asked (some r) = (tt, (tt, tt))

  pub commit_notes-Backed :
      (c : Config) (t : Bool) (s : ℕ) (e : Entry) → OutsBacked B (commit_notes c t s e)
  commit_notes-Backed c t s e = OutsBacked-append B _ _ (retro-Backed c.use_retro_log s e.command) (
      if_elim (OutsBacked B) t _ _
        (λ replies.
          optional_reply e.request
            (λ r. record { command = r.command; value = none; timestamp = r.timestamp }))
        (λ runs. tt))

  execute_entry-Backed :
      (e : Entry) (x : Executor) → OutsBacked B x.out → OutsBacked B (execute_entry e x).out
  unfolding execute_entry
  execute_entry-Backed e x h = OutsBacked-append B x.out _ h (
      optional_reply e.request
        (λ r. record { command = e.command; value = (Db.execute x.db e.command).0; timestamp = 0 }))

  ask_recovery-Backed :
      (self b n : ℕ) (e : Entry) (x : Executor)
      → OutsBacked B x.out
      → OutsBacked B (ask_recovery self b n e x).out
  unfolding ask_recovery
  ask_recovery-Backed self b n e x h =
      if_elim (λ (y : Executor). OutsBacked B y.out) (ltb (x.execute + 11) n && is_unknown e) _ _
        (λ asks. OutsBacked-append B x.out _ h (tt, tt)) (λ quiet. h)

  exec_loop-Backed :
      (self b n fuel : ℕ) (x : Executor)
      → OutsBacked B x.out
      → OutsBacked B (exec_loop self b n fuel x).out
  unfolding exec_loop
  exec_loop-Backed self b n zero x h = h
  exec_loop-Backed self b n (suc fuel) x h =
      let asked = ask_recovery-Backed self b n in
      elim (Option-cases (lookup x.execute x.log)) [
        | inl nothing ↦ rw (nothing, exec_loop) h
        | inr (e, has) ↦ elim (Bool-cases (not e.commit || is_unknown e)) [
          | inl stop ↦ rw (has, exec_loop) (rw stop (asked e x h))
          | inr go ↦
              rw (has, exec_loop)
                (rw go (
                  exec_loop-Backed self b n fuel (execute_entry e (ask_recovery self b n e x))
                    (execute_entry-Backed e (ask_recovery self b n e x) (asked e x h))))
        ]
      ]

  pub exec-Backed : (p : PigPaxos) → Backed B p → Backed B (exec p)
  unfolding exec
  exec-Backed p k = record {
    log = λ s e at nz.
        let (f, has, ballot, command, _, _) = lookup-exec p s e at in
        let was : B f.ballot s f.command = k.log s f has (λ z. nz (ballot ∙ z)) in
        subst (λ (c : Command). B e.ballot s c) (sym command)
          (subst (λ (b : ℕ). B b s f.command) (sym ballot) was);
    out = exec_loop-Backed p.id p.ballot p.next_slot (p.next_slot - p.execute + 1) _ k.out;
  }

-- ===== src/Pig/Proposals/Retry.antt =====
-- The retries of a leader.
use pigpaxos.Prelude.{
  ℕ, ◌-◌, ◌<◌, ◌≡◌, refl, ap, sym, ◌∙◌, [], ◌∷◌, ◌++◌, Option, none, some, true, false, not, ◌&&◌,
  ◌==◌, ltb, arith, inl, inr, Bool-cases, some_inj, if_elim,
}
use pigpaxos.Prelude.Assoc.{lookup}
use pigpaxos.Pig.Msg.{Request, P1b, P2a, accept}
use pigpaxos.Pig.State.{Entry, broadcast, PigPaxos}
use pigpaxos.Pig.Accept.{no_p3}
use pigpaxos.Pig.Prepare.{retry_p1a}
use pigpaxos.Pig.Accept.{retry_p2a}
use pigpaxos.Pig.Maintain.{retry_slot, retry}
use pigpaxos.Pig.Ballots.{OwnsBallot}
use pigpaxos.Pig.Proposals.Steps.{retry_p1a-Quiet}
use pigpaxos.Pig.Proposals.{proposals-append, Proposing}
use pigpaxos.Pig.Proposals.Quiet.{Quiet-Proposing}
use pigpaxos.Pig.Proposals.Speak.{Speaks, Speaks-Proposing}
use pigpaxos.Pig.Msg
use pigpaxos.Pig.Accept.{in_ms}
use pigpaxos.Pig.Maintain.{check_timeout}
use pigpaxos.Pig.Proposals.Steps.{still}

-- the message of `RetryP2a`
abbrev repeated : PigPaxos → Entry → P2a
repeated p e = record {
  ballot = p.ballot;
  slot = p.execute;
  global_execute = p.global_execute;
  command = e.command;
  p3msg = no_p3;
}

retry_p2a-Speaks :
    (p : PigPaxos) (e : Entry)
    → p.active ≡ true
    → p.execute < p.next_slot
    → lookup p.execute p.log ≡ some e
    → e.commit ≡ false
    → Proposing p
    → Speaks (repeated p e) p (retry_p2a p.execute e p)
unfolding retry_p2a
retry_p2a-Speaks p e on h at open_yet v = record {
  id = refl;
  ballot = refl;
  leader = on;
  active = on;
  said = proposals-append p.out _;
  mine = refl;
  slots = omega arith;
  used = h;
  agrees = λ n k b s. sym (v.logged n e k b (ap (λ (t : ℕ). lookup t p.log) s ∙ at) open_yet);
  log = λ s f at' open_yet'. elim (Bool-cases (s == p.execute)) [
    | inl here ↦
        let slot : p.execute ≡ s = ground arith in
        let same : f ≡ e = some_inj (sym at' ∙ ap (λ (t : ℕ). lookup t p.log) (sym slot) ∙ at) in
        inl (sym slot, ap (λ (x : Entry). x.command) same)
    | inr there ↦ inr (λ e'. absurd (ground arith), (f, at', open_yet', refl))
  ];
}

retry_slot-Proposing :
    (cutoff : ℕ) (o : Option Entry) (p : PigPaxos)
    → lookup p.execute p.log ≡ o
    → p.active ≡ true
    → p.execute < p.next_slot
    → Proposing p
    → Proposing (retry_slot cutoff o p)
unfolding retry_slot
retry_slot-Proposing cutoff none p at on h v = v
retry_slot-Proposing cutoff (some e) p at on h v =
    if_elim Proposing (not e.commit && ltb e.timestamp cutoff) _ _
      (λ late. Speaks-Proposing (retry_p2a-Speaks p e on h at (ground arith) v) v) (λ early. v)

retry_p1a_leads : (now : ℕ) (p : PigPaxos) → OwnsBallot p → OwnsBallot (retry_p1a now p)
unfolding retry_p1a
retry_p1a_leads now p own = if_elim OwnsBallot p.active _ _ (λ leads. own) (λ follows. own)

retry_p1a-Proposing : (now : ℕ) (p : PigPaxos) → Proposing p → Proposing (retry_p1a now p)
retry_p1a-Proposing now p v =
    Quiet-Proposing (retry_p1a_leads now p v.leads) (retry_p1a-Quiet now p) v

pub retry-Proposing : (cutoff now : ℕ) (p : PigPaxos) → Proposing p → Proposing (retry cutoff now p)
unfolding retry
retry-Proposing cutoff now p v =
    if_elim Proposing (p.active && ltb p.execute p.next_slot) _ _
      (λ leads.
        retry_slot-Proposing cutoff (lookup p.execute p.log) p refl (ground arith) (ground arith) v)
      (λ follows.
        if_elim Proposing (not p.active && ltb p.p1a_time cutoff) _ _
          (λ late. retry_p1a-Proposing now p v) (λ early. v))

pub check_timeout-Proposing :
    (cutoff now : ℕ) (p : PigPaxos) → Proposing p → Proposing (check_timeout cutoff now p)
unfolding check_timeout
check_timeout-Proposing cutoff now p v =
    let w = retry-Proposing cutoff now p v in
    let q = retry cutoff now p in
    let told : PigPaxos = record q {
      out =
          q.out
          ++ broadcast (Msg.committed (record { ballot = q.p3_ballot; slots = q.p3_slots })) ∷ [];
      last_p3_time = in_ms now;
      p3_slots = [];
    } in
    if_elim Proposing
      (ltb q.last_p3_time (in_ms now - 10) && ltb 0 q.last_p3_time && ltb 0 q.p3_ballot) told q
      (λ due. Quiet-Proposing w.leads (still q told _ refl refl refl refl refl refl refl) w)
      (λ quiet. w)

-- ===== src/Pig/Backed/Calls.antt =====
-- Every call keeps a node backed.
use pigpaxos.Prelude.{
  ℕ, zero, suc, ◌+◌, ◌-◌, ◌≡◌, ◌≢◌, sym, List, [], ◌∷◌, ◌++◌, Option, none, some, not, ◌&&◌, ◌==◌,
  ltb, arith, some_inj, if_elim,
}
use pigpaxos.Prelude.Assoc.{lookup}
use pigpaxos.Config.{Config}
use pigpaxos.Db.{Command}
use pigpaxos.Pig.Msg.{
  CommandBallot, Request, Reply, P1a, P1b, P2a, P3, P3RecoverRequest, P3RecoverReply,
}
use pigpaxos.Pig.Msg
use pigpaxos.Pig.State.{Entry, Out, PigPaxos, forward, broadcast, send, reply, retro}
use pigpaxos.Pig.Prepare.{retry_p1a}
use pigpaxos.Pig.Accept.{retry_p2a, in_ms}
use pigpaxos.Pig.Maintain.{
  retry, retry_slot, check_timeout, update_executed, delete_slots, cleanup_log,
}
use pigpaxos.Pig.Step.{
  Event, request, prepare, promise, accept, accepted, committed, recover_request, recover_reply,
  timeout, executed, cleanup, handle,
}
use pigpaxos.Pig.Invariant.Calls.{IsValid}
use pigpaxos.Pig.Backed.{
  ReportsBacked, MsgBacked, OutBacked, OutsBacked, LogBacked, Backed, ProposalsBacked,
  OutsBacked-append,
}
use pigpaxos.Pig.Backed.Promising.{handle_p1b-Backed, handle_request-Backed}
use pigpaxos.Pig.Backed.Commits.{
  handle_p1a-Backed, handle_p2a-Backed, handle_p3-Backed, handle_p2b-Backed,
  handle_recover_request-Backed, handle_recover_reply-Backed,
}
use pigpaxos.Prelude.Assoc.{erase, lookup-erase}

module _ (B : ℕ → ℕ → Command → Type 0) where
  -- What a call brings is backed.
  abbrev pub EventBacked : Event → Type 0
  EventBacked (promise now m) = ReportsBacked B m.ballot m.log
  EventBacked (accept m to) = m.ballot ≢ 0 → B m.ballot m.slot m.command
  EventBacked (recover_reply m) = m.ballot ≢ 0 → B m.ballot m.slot m.command
  EventBacked _ = Unit {0}

  retry_p1a-Backed : (now : ℕ) (p : PigPaxos) → Backed B p → Backed B (retry_p1a now p)
  unfolding retry_p1a
  retry_p1a-Backed now p k =
      if_elim (Backed B) p.active _ _ (λ leads. k)
        (λ follows. record { log = k.log; out = OutsBacked-append B p.out _ k.out (tt, tt) })

  retry_slot-Backed :
      (t : ℕ) (o : Option Entry) (p : PigPaxos) → Backed B p → Backed B (retry_slot t o p)
  unfolding retry_slot retry_p2a
  retry_slot-Backed t none p k = k
  retry_slot-Backed t (some e) p k =
      if_elim (Backed B) (not e.commit && ltb e.timestamp t) _ _
        (λ late. record { log = k.log; out = OutsBacked-append B p.out _ k.out (tt, tt) })
        (λ soon. k)

  retry-Backed : (t now : ℕ) (p : PigPaxos) → Backed B p → Backed B (retry t now p)
  unfolding retry
  retry-Backed t now p k =
      if_elim (Backed B) (p.active && ltb p.execute p.next_slot) _ _
        (λ waits. retry_slot-Backed t (lookup p.execute p.log) p k)
        (λ rest.
          if_elim (Backed B) (not p.active && ltb p.p1a_time t) _ _
            (λ late. retry_p1a-Backed now p k) (λ soon. k))

  check_timeout-Backed : (t now : ℕ) (p : PigPaxos) → Backed B p → Backed B (check_timeout t now p)
  unfolding check_timeout
  check_timeout-Backed t now p k =
      let kept = retry-Backed t now p k in
      let noticed : OutsBacked B (
          (retry t now p).out
          ++ broadcast (
              Msg.committed
                (record { ballot = (retry t now p).p3_ballot; slots = (retry t now p).p3_slots }))
            ∷ []) =
        OutsBacked-append B (retry t now p).out _ kept.out (tt, tt) in
      if_elim (Backed B)
        (ltb (retry t now p).last_p3_time (in_ms now - 10)
          && ltb 0 (retry t now p).last_p3_time
          && ltb 0 (retry t now p).p3_ballot)
        _ _ (λ due. record { log = kept.log; out = noticed }) (λ rest. kept)

  delete_slots-Backed :
      (i rounds : ℕ) (log : List (ℕ × Entry))
      → LogBacked B log
      → LogBacked B (delete_slots i rounds log)
  unfolding delete_slots
  delete_slots-Backed i zero log k = k
  delete_slots-Backed i (suc rounds) log k = delete_slots-Backed (i + 1) rounds _ (
      if_elim (LogBacked B) (i == 0) log (erase (i - 1) log) (λ first. k)
        (λ later s e at. k s e (ground (arith, lookup-erase (i - 1) s log, at))))

  cleanup_log-Backed : (p : PigPaxos) → Backed B p → Backed B (cleanup_log p)
  unfolding cleanup_log
  cleanup_log-Backed p k = record { log = delete_slots-Backed _ _ p.log k.log; out = k.out }

  pub handle-Backed :
      (c : Config) (e : Event) (p q : PigPaxos)
      → IsValid p
      → EventBacked e
      → handle c e p ≡ some q
      → ProposalsBacked B q
      → Backed B p
      → Backed B q
  unfolding handle update_executed
  handle-Backed c (request now r) p q v h eq proposed k =
      rw (some_inj eq) at (handle_request-Backed B now r p (rw (sym (some_inj eq)) at proposed) k)
  handle-Backed c (prepare m to) p q v h eq proposed k =
      rw (some_inj eq) at (handle_p1a-Backed B m to p v k)
  handle-Backed c (promise now m) p q v h eq proposed k =
      rw (some_inj eq) at (handle_p1b-Backed B c now m p h (rw (sym (some_inj eq)) at proposed) k)
  handle-Backed c (accept m to) p q v h eq proposed k =
      rw (some_inj eq) at (handle_p2a-Backed B c m to p h k)
  handle-Backed c (accepted now slot a ids) p q v h eq proposed k =
      handle_p2b-Backed B c now slot a ids p q eq k
  handle-Backed c (committed m) p q v h eq proposed k =
      rw (some_inj eq) at (handle_p3-Backed B c m p k)
  handle-Backed c (recover_request m) p q v h eq proposed k =
      rw (some_inj eq) at (handle_recover_request-Backed B m p k)
  handle-Backed c (recover_reply m) p q v h eq proposed k =
      rw (some_inj eq) at (handle_recover_reply-Backed B m p h k)
  handle-Backed c (timeout t now) p q v h eq proposed k =
      rw (some_inj eq) at (check_timeout-Backed t now p k)
  handle-Backed c (executed id last) p q v h eq proposed k =
      rw (← some_inj eq) (record { log = k.log; out = k.out })
  handle-Backed c cleanup p q v h eq proposed k = rw (some_inj eq) at (cleanup_log-Backed p k)

-- What is backed by one relation is backed by a wider one.
module _ {B D : ℕ → ℕ → Command → Type 0}
    (wider : (b s : ℕ) (c : Command) → B b s c → D b s c) where
  ReportsBacked-mono :
      (b : ℕ) (log : List (ℕ × CommandBallot)) → ReportsBacked B b log → ReportsBacked D b log
  ReportsBacked-mono b [] h = tt
  ReportsBacked-mono b ((s, cb) ∷ log) h =
      ((h.0.0, λ nz. wider cb.ballot s cb.command (h.0.1 nz)), ReportsBacked-mono b log h.1)

  MsgBacked-mono : (m : Msg.Msg) → MsgBacked B m → MsgBacked D m
  MsgBacked-mono (Msg.prepare m) h = tt
  MsgBacked-mono (Msg.promise m) h = ReportsBacked-mono m.ballot m.log h
  MsgBacked-mono (Msg.accept m) h = tt
  MsgBacked-mono (Msg.accepted m) h = tt
  MsgBacked-mono (Msg.committed m) h = tt
  MsgBacked-mono (Msg.recover_request m) h = tt
  MsgBacked-mono (Msg.recover_reply m) h = λ nz. wider m.ballot m.slot m.command (h nz)

  OutBacked-mono : (o : Out) → OutBacked B o → OutBacked D o
  OutBacked-mono (broadcast m) h = MsgBacked-mono m h
  OutBacked-mono (send to m) h = MsgBacked-mono m h
  OutBacked-mono (forward to r) h = tt
  OutBacked-mono (reply r a) h = tt
  OutBacked-mono (retro s c) h = tt

  OutsBacked-mono : (os : List Out) → OutsBacked B os → OutsBacked D os
  OutsBacked-mono [] h = tt
  OutsBacked-mono (o ∷ os) h = (OutBacked-mono o h.0, OutsBacked-mono os h.1)

  pub Backed-mono : {p : PigPaxos} → Backed B p → Backed D p
  Backed-mono {p} k = record {
    log = λ s e at nz. wider e.ballot s e.command (k.log s e at nz);
    out = OutsBacked-mono p.out k.out;
  }

  pub EventBacked-mono : (e : Event) → EventBacked B e → EventBacked D e
  EventBacked-mono (request now r) h = tt
  EventBacked-mono (prepare m to) h = tt
  EventBacked-mono (promise now m) h = ReportsBacked-mono m.ballot m.log h
  EventBacked-mono (accept m to) h = λ nz. wider m.ballot m.slot m.command (h nz)
  EventBacked-mono (accepted now slot b ids) h = tt
  EventBacked-mono (committed m) h = tt
  EventBacked-mono (recover_request m) h = tt
  EventBacked-mono (recover_reply m) h = λ nz. wider m.ballot m.slot m.command (h nz)
  EventBacked-mono (timeout t now) h = tt
  EventBacked-mono (executed id last) h = tt
  EventBacked-mono cleanup h = tt

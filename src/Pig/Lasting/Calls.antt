-- ===== src/Pig/Lasting/Calls.antt =====
-- Every call keeps the command of a committed slot.
use pigpaxos.Prelude.{ℕ, ◌<◌, ◌≡◌, ◌≢◌, some, not, ◌==◌, ltb, arith, some_inj, if_elim}
use pigpaxos.Ballot.{owner}
use pigpaxos.Config.{Config}
use pigpaxos.Db.{Command}
use pigpaxos.Pig.Msg.{Request, P1a}
use pigpaxos.Pig.State.{PigPaxos, forward_requests}
use pigpaxos.Pig.Prepare.{start_p1a, retry_p1a, adopt, handle_p1a}
use pigpaxos.Pig.Accept.{handle_request, retry_p2a}
use pigpaxos.Pig.Maintain.{retry, retry_slot, check_timeout, update_executed}
use pigpaxos.Pig.Step.{
  Event, request, prepare, promise, accept, accepted, committed, recover_request, recover_reply,
  timeout, executed, cleanup, handle,
}
use pigpaxos.Pig.Lasting.{Chosen}
use pigpaxos.Pig.Invariant.Calls.{IsValid}
use pigpaxos.Pig.Lasting.Promises.{start_p2a-Chosen, handle_p1b-Chosen}
use pigpaxos.Pig.Lasting.Commits.{
  handle_p2a-Chosen, handle_p3-Chosen, handle_p2b-Chosen, handle_recover_request-Chosen,
  handle_recover_reply-Chosen,
}

module _ (s b : ℕ) (c : Command) (nz : b ≢ 0) where
  -- The handlers that leave the log alone.
  start_p1a-Chosen :
      (now : ℕ) (p : PigPaxos) → Chosen s b c p.log → Chosen s b c (start_p1a now p).log
  unfolding start_p1a
  start_p1a-Chosen now p k =
      if_elim (λ (q : PigPaxos). Chosen s b c q.log) p.active _ _ (λ leads. k) (λ follows. k)

  handle_request-Chosen :
      (now : ℕ) (r : Request) (p : PigPaxos)
      → s < p.next_slot
      → Chosen s b c p.log
      → Chosen s b c (handle_request now r p).log
  unfolding handle_request
  handle_request-Chosen now r p h k =
      if_elim (λ (q : PigPaxos). Chosen s b c q.log) (not p.active) _ _
        (λ follows.
          if_elim (λ (q : PigPaxos). Chosen s b c q.log) (not (owner p.ballot == p.id)) _ _
            (λ other. start_p1a-Chosen now _ k) (λ waiting. k))
        (λ leads. start_p2a-Chosen s b c nz now p r h k)

  handle_p1a-Chosen :
      (m : P1a) (to : ℕ) (p : PigPaxos) → Chosen s b c p.log → Chosen s b c (handle_p1a m to p).log
  unfolding handle_p1a adopt forward_requests
  handle_p1a-Chosen m to p k =
      if_elim (λ (q : PigPaxos). Chosen s b c q.log) (ltb p.ballot m.ballot) _ _ (λ new. k)
        (λ old. k)

  log-retry : (t now : ℕ) (p : PigPaxos) → (retry t now p).log ≡ p.log
  unfolding retry retry_slot retry_p2a retry_p1a
  log-retry t now p = ground arith

  check_timeout-Chosen :
      (t now : ℕ) (p : PigPaxos) → Chosen s b c p.log → Chosen s b c (check_timeout t now p).log
  unfolding check_timeout
  check_timeout-Chosen t now p k =
      let kept : Chosen s b c (retry t now p).log = rw (log-retry t now p) k in
      if_elim (λ (q : PigPaxos). Chosen s b c q.log) _ _ _ (λ due. kept) (λ rest. kept)

slot_below :
    (p : PigPaxos) (s b : ℕ) (c : Command) → IsValid p → Chosen s b c p.log → s < p.next_slot
slot_below p s b c v (e, at, _, _, _) = (v.entries s e at).below

-- The calls under which a committed slot lasts: no cleanup and no recovery reply for it.
abbrev pub IsLasting : ℕ → Event → Type 0
IsLasting s (recover_reply m) = m.slot ≢ s
IsLasting s cleanup = ⊥
IsLasting s _ = Unit {0}

-- Once a node has committed a command at a slot, with a ballot that is not 0, every call that does
-- not panic leaves the slot committed with that ballot and that command; the calls excepted are the
-- cleanup of the log and a recovery reply for the slot.
pub committed_entry_lasts :
    (g : Config) (ev : Event) (p q : PigPaxos) (s b : ℕ) (c : Command)
    → IsValid p
    → b ≢ 0
    → IsLasting s ev
    → handle g ev p ≡ some q
    → Chosen s b c p.log
    → Chosen s b c q.log
unfolding handle update_executed
committed_entry_lasts g (request now r) p q s b c v nz l h k =
    rw (some_inj h) at (handle_request-Chosen s b c nz now r p (slot_below p s b c v k) k)
committed_entry_lasts g (prepare m to) p q s b c v nz l h k =
    rw (some_inj h) at (handle_p1a-Chosen s b c nz m to p k)
committed_entry_lasts g (promise now m) p q s b c v nz l h k =
    rw (some_inj h) at (handle_p1b-Chosen s b c nz g now m p (slot_below p s b c v k) k)
committed_entry_lasts g (accept m to) p q s b c v nz l h k =
    rw (some_inj h) at (handle_p2a-Chosen s b c nz g m to p k)
committed_entry_lasts g (accepted now slot a ids) p q s b c v nz l h k =
    handle_p2b-Chosen s b c nz g now slot a ids p q h k
committed_entry_lasts g (committed m) p q s b c v nz l h k =
    rw (some_inj h) at (handle_p3-Chosen s b c nz g m p k)
committed_entry_lasts g (recover_request m) p q s b c v nz l h k =
    rw (some_inj h) at (handle_recover_request-Chosen s b c nz m p k)
committed_entry_lasts g (recover_reply m) p q s b c v nz l h k =
    rw (some_inj h) at (handle_recover_reply-Chosen s b c nz m p l k)
committed_entry_lasts g (timeout t now) p q s b c v nz l h k =
    rw (some_inj h) at (check_timeout-Chosen s b c nz t now p k)
committed_entry_lasts g (executed id last) p q s b c v nz l h k = rw (← some_inj h) k
committed_entry_lasts g cleanup p q s b c v nz l h k = absurd l

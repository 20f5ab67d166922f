-- ===== src/Pig/Lasting/Promises.antt =====
-- What promises and proposals do to a committed slot.
use pigpaxos.Prelude.{
  ℕ, zero, suc, ◌+◌, ◌-◌, ◌<◌, ◌≡◌, ◌≢◌, ap, sym, ◌∙◌, List, [], ◌∷◌, ◌&&◌, ◌||◌, ◌==◌, ltb, arith,
  inl, inr, Option-cases, some_inj, if_elim,
}
use pigpaxos.Prelude.Assoc.{lookup, insert}
use pigpaxos.Ballot.{owner}
use pigpaxos.Config.{Config}
use pigpaxos.Db.{Command}
use pigpaxos.Quorum.{ack, majority}
use pigpaxos.Pig.Msg.{CommandBallot, Request, P1b}
use pigpaxos.Pig.State.{Entry, PigPaxos, forward_requests}
use pigpaxos.Pig.Prepare.{Slots, merge, update}
use pigpaxos.Pig.Accept.{
  start_p2a, repropose, repropose_at, repropose_log, propose_all, lead, count_promise,
  merge_promise, handle_p1b,
}
use pigpaxos.Pig.Lasting.{Chosen, Chosen-insert, merge-Renews}
use pigpaxos.Pig.Proposals.Promise.{next_slot-update}

pub next_slot-merge_promise :
    {s : ℕ} (m : P1b) (p : PigPaxos) → s < p.next_slot → s < (merge_promise m p).next_slot
unfolding merge_promise forward_requests
next_slot-merge_promise m p h =
    let up = next_slot-update m.log (record { log = p.log; next_slot = p.next_slot }) in
    ground (arith, up)

next_slot-start_p2a :
    {s : ℕ} (now : ℕ) (p : PigPaxos) (r : Request)
    → s < p.next_slot
    → s < (start_p2a now p r).next_slot
unfolding start_p2a
next_slot-start_p2a now p r h = omega arith

-- `nz` says that the command of the slot has arrived.
module _ (s b : ℕ) (c : Command) (nz : b ≢ 0) where
  update-Chosen :
      (scb : List (ℕ × CommandBallot)) (x : Slots)
      → Chosen s b c x.log
      → Chosen s b c (update scb x).log
  unfolding update
  update-Chosen [] x k = k
  update-Chosen ((t, cb) ∷ rest) x k = update-Chosen rest _ (
      Chosen-insert s b c t (merge cb (lookup t x.log)) x.log nz
        (λ e here at. merge-Renews s b c cb (lookup t x.log) e at) k)

  repropose_at-Chosen :
      (self bal t : ℕ) (log : List (ℕ × Entry))
      → Chosen s b c log
      → Chosen s b c (repropose_at self bal t log)
  unfolding repropose_at
  repropose_at-Chosen self bal t log k = elim (Option-cases (lookup t log)) [
    | inl nothing ↦ rw (nothing, repropose_at) k
    | inr (d, has) ↦
        rw (has, repropose_at)
          (if_elim (Chosen s b c) d.commit log (insert t (repropose self bal d) log) (λ done. k)
            (λ open_yet.
              Chosen-insert s b c t (repropose self bal d) log nz
                (λ e here at done.
                  let same : d ≡ e = some_inj (sym has ∙ at) in
                  cc (sym open_yet ∙ ap (λ (x : Entry). x.commit) same ∙ done))
                k))
  ]

  repropose_log-Chosen :
      (self bal t rounds : ℕ) (log : List (ℕ × Entry))
      → Chosen s b c log
      → Chosen s b c (repropose_log self bal log t rounds)
  unfolding repropose_log
  repropose_log-Chosen self bal t zero log k = k
  repropose_log-Chosen self bal t (suc rounds) log k =
      repropose_log-Chosen self bal (t + 1) rounds (repropose_at self bal t log)
        (repropose_at-Chosen self bal t log k)

  -- A new slot is another slot.
  pub start_p2a-Chosen :
      (now : ℕ) (p : PigPaxos) (r : Request)
      → s < p.next_slot
      → Chosen s b c p.log
      → Chosen s b c (start_p2a now p r).log
  unfolding start_p2a
  start_p2a-Chosen now p r h k =
      Chosen-insert s b c p.next_slot _ p.log nz (λ e here. absurd (omega arith)) k

  propose_all-Chosen :
      (now : ℕ) (rs : List Request) (p : PigPaxos)
      → s < p.next_slot
      → Chosen s b c p.log
      → Chosen s b c (propose_all now rs p).log
  unfolding propose_all
  propose_all-Chosen now [] p h k = k
  propose_all-Chosen now (r ∷ rs) p h k =
      propose_all-Chosen now rs (start_p2a now p r) (next_slot-start_p2a now p r h)
        (start_p2a-Chosen now p r h k)

  merge_promise-Chosen :
      (m : P1b) (p : PigPaxos) → Chosen s b c p.log → Chosen s b c (merge_promise m p).log
  unfolding merge_promise forward_requests
  merge_promise-Chosen m p k =
      let merged = update-Chosen m.log (record { log = p.log; next_slot = p.next_slot }) k in
      if_elim (λ (q : PigPaxos). Chosen s b c q.log) (ltb p.ballot m.ballot) _ _ (λ higher. merged)
        (λ lower. merged)

  lead-Chosen :
      (now : ℕ) (p : PigPaxos)
      → s < p.next_slot
      → Chosen s b c p.log
      → Chosen s b c (lead now p).log
  unfolding lead
  lead-Chosen now p h k =
      propose_all-Chosen now p.requests _ h
        (repropose_log-Chosen p.id p.ballot p.execute (p.next_slot - p.execute) p.log k)

  count_promise-Chosen :
      (g : Config) (now : ℕ) (m : P1b) (p : PigPaxos)
      → s < p.next_slot
      → Chosen s b c p.log
      → Chosen s b c (count_promise g now m p).log
  unfolding count_promise
  count_promise-Chosen g now m p h k =
      if_elim (λ (q : PigPaxos). Chosen s b c q.log)
        (owner m.ballot == p.id && m.ballot == p.ballot) _ _
        (λ mine.
          if_elim (λ (q : PigPaxos). Chosen s b c q.log) (majority g (ack p.quorum m.id)) _ _
            (λ enough. lead-Chosen now _ h k) (λ few. k))
        (λ other. k)

  pub handle_p1b-Chosen :
      (g : Config) (now : ℕ) (m : P1b) (p : PigPaxos)
      → s < p.next_slot
      → Chosen s b c p.log
      → Chosen s b c (handle_p1b g now m p).log
  unfolding handle_p1b
  handle_p1b-Chosen g now m p h k =
      if_elim (λ (q : PigPaxos). Chosen s b c q.log) (ltb m.ballot p.ballot || p.active) _ _
        (λ old. k)
        (λ new.
          count_promise-Chosen g now m (merge_promise m p) (next_slot-merge_promise m p h)
            (merge_promise-Chosen m p k))

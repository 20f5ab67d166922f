-- ===== src/Pig/Backed/Proposing.antt =====
-- Requests, promises and proposals keep a node backed.
use mathlib.Core.List.{Memᴰ}
use mathlib.Core.List.Memᴰ.{append_left, append_right}
use pigpaxos.Prelude.{
  ℕ, zero, suc, ◌+◌, ◌-◌, ◌≤◌, ◌<◌, ◌≡◌, refl, ap, sym, ◌∙◌, List, [], ◌∷◌, ◌++◌, none, some, true,
  false, ◌==◌, arith, inl, inr, Bool-cases, Option-cases, if_elim, if◌then◌else◌,
}
use pigpaxos.Prelude.Assoc.{lookup, insert, lookup-insert}
use pigpaxos.Db.{Command}
use pigpaxos.Pig.Msg.{
  CommandBallot, Request, Reply, P1a, P1b, P2a, P3, P3RecoverRequest, P3RecoverReply,
}
use pigpaxos.Pig.Msg
use pigpaxos.Pig.State.{Entry, Out, PigPaxos, broadcast}
use pigpaxos.Pig.Prepare.{start_p1a}
use pigpaxos.Pig.Accept.{
  start_p2a, repropose, repropose_at, repropose_log, repropose_out, propose_all, lead,
}
use pigpaxos.Pig.Proposals.{proposals, proposals-append, HasProposed}
use pigpaxos.Pig.Proposals.Lead.{reproposal, proposal_of}
use pigpaxos.Pig.Backed.{LogBacked, Backed, ProposalsBacked, OutsBacked-append, LogBacked-insert}
use pigpaxos.Pig.Backed.Outs.{repropose_out-Backed}

-- A proposal stays among the proposals.
pub HasProposed-later :
    (m : P2a) (xs ys : List Out) → Memᴰ m (proposals xs) → Memᴰ m (proposals (xs ++ ys))
HasProposed-later m xs ys k = rw (proposals-append xs ys) (append_left (proposals ys) k)

pub HasProposed-start_p2a :
    (now : ℕ) (p : PigPaxos) (r : Request) (m : P2a)
    → HasProposed p m
    → HasProposed (start_p2a now p r) m
unfolding start_p2a
HasProposed-start_p2a now p r m k = HasProposed-later m p.out _ k

pub HasProposed-propose_all :
    (now : ℕ) (rs : List Request) (p : PigPaxos) (m : P2a)
    → HasProposed p m
    → HasProposed (propose_all now rs p) m
unfolding propose_all
HasProposed-propose_all now [] p m k = k
HasProposed-propose_all now (r ∷ rs) p m k =
    HasProposed-propose_all now rs (start_p2a now p r) m (HasProposed-start_p2a now p r m k)

-- The entries that are open get proposed.
repropose_out-covers :
    (b g s rounds t : ℕ) (e : Entry) (log : List (ℕ × Entry))
    → s ≤ t
    → t < s + rounds
    → lookup t log ≡ some e
    → e.commit ≡ false
    → Memᴰ (reproposal b g t e) (proposals (repropose_out b g log s rounds))
unfolding repropose_out
repropose_out-covers b g s zero t e log h k at open_yet = absurd (omega arith)
repropose_out-covers b g s (suc rounds) t e log h k at open_yet = elim (Bool-cases (s == t)) [
  | inl here ↦
      let slot : s ≡ t = ground arith in
      let here_at : lookup s log ≡ some e = ap (λ (k : ℕ). lookup k log) slot ∙ at in
      rw (here_at, open_yet) (Memᴰ.head (ap (λ (k : ℕ). reproposal b g k e) (sym slot)))
  | inr there ↦
      rw
        (proposals-append
          (elim (lookup s log) [
            | none ↦ []
            | some e ↦
                if e.commit
                then []
                else broadcast (
                    Msg.accept (record {
                      ballot = b;
                      slot = s;
                      global_execute = g;
                      command = e.command;
                      p3msg = record { ballot = 0; slots = [] };
                    }))
                  ∷ []
          ])
          (repropose_out b g log (s + 1) rounds))
        (append_right _ (
          repropose_out-covers b g (s + 1) rounds t e log (ground arith) (omega arith) at open_yet))
]

module _ (B : ℕ → ℕ → Command → Type 0) where
  repropose_at-Backed :
      (self b s : ℕ) (log : List (ℕ × Entry))
      → ((e : Entry) → lookup s log ≡ some e → e.commit ≡ false → B b s e.command)
      → LogBacked B log
      → LogBacked B (repropose_at self b s log)
  unfolding repropose_at
  repropose_at-Backed self b s log proposed k = elim (Option-cases (lookup s log)) [
    | inl nothing ↦ rw (nothing, repropose_at) k
    | inr (e, has) ↦
        rw (has, repropose_at)
          (if_elim (LogBacked B) e.commit log (insert s (repropose self b e) log) (λ done. k)
            (λ open_yet.
              LogBacked-insert B s (repropose self b e) log (λ nz. proposed e has open_yet) k))
  ]

  lookup-repropose_at :
      (self b s t : ℕ) (log : List (ℕ × Entry))
      → (s == t) ≡ false
      → lookup t (repropose_at self b s log) ≡ lookup t log
  unfolding repropose_at
  lookup-repropose_at self b s t log h = elim (Option-cases (lookup s log)) [
    | inl nothing ↦ rw (nothing, repropose_at) refl
    | inr (e, has) ↦
        rw (has, repropose_at)
          (if_elim (λ (x : List (ℕ × Entry)). lookup t x ≡ lookup t log) e.commit log
            (insert s (repropose self b e) log) (λ done. refl)
            (λ open_yet. ground (arith, lookup-insert s t (repropose self b e) log)))
  ]

  repropose_log-Backed :
      (self b s rounds : ℕ) (log : List (ℕ × Entry))
      → ((t : ℕ) (e : Entry)
          → s ≤ t
          → t < s + rounds
          → lookup t log ≡ some e
          → e.commit ≡ false
          → B b t e.command)
      → LogBacked B log
      → LogBacked B (repropose_log self b log s rounds)
  unfolding repropose_log
  repropose_log-Backed self b s zero log proposed k = k
  repropose_log-Backed self b s (suc rounds) log proposed k =
      repropose_log-Backed self b (s + 1) rounds (repropose_at self b s log)
        (λ t e h up at open_yet.
          proposed t e (omega arith) (omega arith)
            (sym (lookup-repropose_at self b s t log (ground arith)) ∙ at) open_yet)
        (repropose_at-Backed self b s log
          (λ e at open_yet. proposed s e (omega arith) (omega arith) at open_yet) k)

  pub start_p1a-Backed : (now : ℕ) (p : PigPaxos) → Backed B p → Backed B (start_p1a now p)
  unfolding start_p1a
  start_p1a-Backed now p k =
      if_elim (Backed B) p.active _ _ (λ leads. k)
        (λ follows. record { log = k.log; out = OutsBacked-append B p.out _ k.out (tt, tt) })

  pub start_p2a-Backed :
      (now : ℕ) (p : PigPaxos) (r : Request)
      → ProposalsBacked B (start_p2a now p r)
      → Backed B p
      → Backed B (start_p2a now p r)
  unfolding start_p2a
  start_p2a-Backed now p r proposed k = record {
    log =
        LogBacked-insert B p.next_slot _ p.log
          (λ nz.
            proposed (proposal_of p r)
              (rw (proposals-append p.out _) (append_right (proposals p.out) (Memᴰ.head refl))))
          k.log;
    out = OutsBacked-append B p.out _ k.out (tt, tt);
  }

  propose_all-Backed :
      (now : ℕ) (rs : List Request) (p : PigPaxos)
      → ProposalsBacked B (propose_all now rs p)
      → Backed B p
      → Backed B (propose_all now rs p)
  unfolding propose_all
  propose_all-Backed now [] p proposed k = k
  propose_all-Backed now (r ∷ rs) p proposed k =
      propose_all-Backed now rs (start_p2a now p r) proposed (
        start_p2a-Backed now p r
          (λ m has. proposed m (HasProposed-propose_all now rs (start_p2a now p r) m has)) k)

  pub lead-Backed :
      (now : ℕ) (p : PigPaxos) → ProposalsBacked B (lead now p) → Backed B p → Backed B (lead now p)
  unfolding lead
  lead-Backed now p proposed k =
      let rounds = p.next_slot - p.execute in
      let os = repropose_out p.ballot p.global_execute p.log p.execute rounds in
      let p' : PigPaxos = record p {
        active = true;
        p3_ballot = p.ballot;
        log = repropose_log p.id p.ballot p.log p.execute rounds;
        out = p.out ++ os;
      } in
      let again : Backed B p' = record {
        log =
            repropose_log-Backed p.id p.ballot p.execute rounds p.log
              (λ t e h up at open_yet. proposed (reproposal p.ballot p.global_execute t e) (
                HasProposed-propose_all now p.requests p' _ (
                  rw (proposals-append p.out os) (
                    append_right (proposals p.out) (
                      repropose_out-covers p.ballot p.global_execute p.execute rounds t e p.log h up
                        at open_yet)))))
              k.log;
        out =
            OutsBacked-append B p.out _ k.out
              (repropose_out-Backed B p.ballot p.global_execute p.log p.execute rounds);
      } in
      let all = propose_all-Backed now p.requests p' proposed again in
      record { log = all.log; out = all.out }

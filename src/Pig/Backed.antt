-- ===== src/Pig/Backed.antt =====
-- A node whose log and whose messages hold only commands that back a given relation.
pub mod Outs
pub mod Proposing
pub mod Promising
pub mod Commits
pub mod Calls
use pigpaxos.Prelude.{
  ℕ, ◌+◌, ◌≤◌, ◌≡◌, ◌≢◌, refl, List, [], ◌∷◌, ◌++◌, Option, none, some, arith, inl, inr, Bool-cases,
  ◌==◌, some_inj, ◌∙◌, sym, ap,
}
use mathlib.Core.List.{Memᴰ}
use pigpaxos.Prelude.Assoc.{lookup, insert, lookup-insert}
use pigpaxos.Db.{Command}
use pigpaxos.Pig.Msg.{
  CommandBallot, Msg, prepare, promise, accept, accepted, committed, recover_request, recover_reply,
  P2a,
}
use pigpaxos.Pig.State.{Entry, Out, broadcast, send, forward, reply, retro, PigPaxos}
use pigpaxos.Pig.Proposals.{HasProposed}

-- `B b s c` is read: the command `c` may stand under the ballot `b` at the slot `s`.
module _ (B : ℕ → ℕ → Command → Type 0) where
  -- What a promise of ballot `b` reports is backed, and stands under ballots up to `b`.
  abbrev pub ReportsBacked : ℕ → List (ℕ × CommandBallot) → Type 0
  ReportsBacked b [] = Unit {0}
  ReportsBacked b ((s, cb) ∷ rest) =
      ((cb.ballot ≤ b) × (cb.ballot ≢ 0 → B cb.ballot s cb.command)) × ReportsBacked b rest

  abbrev pub MsgBacked : Msg → Type 0
  MsgBacked (promise m) = ReportsBacked m.ballot m.log
  MsgBacked (recover_reply m) = m.ballot ≢ 0 → B m.ballot m.slot m.command
  MsgBacked _ = Unit {0}

  abbrev pub OutBacked : Out → Type 0
  OutBacked (broadcast m) = MsgBacked m
  OutBacked (send to m) = MsgBacked m
  OutBacked _ = Unit {0}

  abbrev pub OutsBacked : List Out → Type 0
  OutsBacked [] = Unit {0}
  OutsBacked (o ∷ os) = OutBacked o × OutsBacked os

  abbrev pub LogBacked : List (ℕ × Entry) → Type 0
  LogBacked log =
      (s : ℕ) (e : Entry) → lookup s log ≡ some e → e.ballot ≢ 0 → B e.ballot s e.command

  pub record Backed (p : PigPaxos) : Type 0 where
    pub log : LogBacked p.log
    pub out : OutsBacked p.out

  -- What the node has proposed is backed.
  abbrev pub ProposalsBacked : PigPaxos → Type 0
  ProposalsBacked p = (m : P2a) → HasProposed p m → B m.ballot m.slot m.command

  pub OutsBacked-append : (xs ys : List Out) → OutsBacked xs → OutsBacked ys → OutsBacked (xs ++ ys)
  OutsBacked-append [] ys h k = k
  OutsBacked-append (x ∷ xs) ys h k = (h.0, OutsBacked-append xs ys h.1 k)

  pub OutsBacked-Mem : {o : Out} {xs : List Out} → Memᴰ o xs → OutsBacked xs → OutBacked o
  OutsBacked-Mem (Memᴰ.head e) h = rw e h.0
  OutsBacked-Mem (Memᴰ.tail k) h = OutsBacked-Mem k h.1

  pub LogBacked-insert :
      (t : ℕ) (f : Entry) (log : List (ℕ × Entry))
      → (f.ballot ≢ 0 → B f.ballot t f.command)
      → LogBacked log
      → LogBacked (insert t f log)
  LogBacked-insert t f log h v s e at nz = elim (Bool-cases (t == s)) [
    | inl here ↦
        let slot : t ≡ s = ground arith in
        let is : some f ≡ some e = ground (arith, lookup-insert t s f log, at) in
        rw (← slot, ← some_inj is)
          (h (λ z. nz (sym (ap (λ (x : Entry). x.ballot) (some_inj is)) ∙ z)))
    | inr there ↦ v s e (ground (arith, lookup-insert t s f log, at)) nz
  ]

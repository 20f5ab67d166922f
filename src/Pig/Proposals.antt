-- ===== src/Pig/Proposals.antt =====
-- The proposals of a node: the P2a messages that it has broadcast.
pub mod Quiet
pub mod Speak
pub mod Steps
pub mod Commits
pub mod Handlers
pub mod Lead
pub mod Retry
pub mod Promise
pub mod Once
use mathlib.Core.List.{Memᴰ}
use pigpaxos.Prelude.{
  ℕ, ◌+◌, ◌≤◌, ◌<◌, ◌≡◌, refl, ap, sym, ◌∙◌, List, [], ◌∷◌, ◌++◌, Option, some, true, false,
}
use pigpaxos.Prelude.Assoc.{lookup}
use mathlib.Core.List.{append_assoc, append-nil}
use pigpaxos.Ballot.{owner}
use pigpaxos.Db.{Command}
use pigpaxos.Pig.Msg.{
  Msg, P2a, prepare, promise, accept, accepted, committed, recover_request, recover_reply,
}
use pigpaxos.Pig.State.{Entry, Out, broadcast, send, forward, reply, retro, PigPaxos}
use pigpaxos.Pig.Ballots.{OwnsBallot}

abbrev pub proposal : Out → List P2a
proposal (broadcast (accept m)) = m ∷ []
proposal (broadcast (prepare m)) = []
proposal (broadcast (promise m)) = []
proposal (broadcast (accepted m)) = []
proposal (broadcast (committed m)) = []
proposal (broadcast (recover_request m)) = []
proposal (broadcast (recover_reply m)) = []
proposal (send to m) = []
proposal (forward to r) = []
proposal (reply r a) = []
proposal (retro slot c) = []

abbrev pub proposals : List Out → List P2a
proposals [] = []
proposals (o ∷ os) = proposal o ++ proposals os

pub proposals-append : (xs ys : List Out) → proposals (xs ++ ys) ≡ proposals xs ++ proposals ys
proposals-append [] ys = refl
proposals-append (o ∷ xs) ys =
    ap (λ (t : List P2a). proposal o ++ t) (proposals-append xs ys)
    ∙ sym (append_assoc (proposal o) (proposals xs) (proposals ys))

pub proposals-append_silent :
    (xs ys : List Out) → proposals ys ≡ [] → proposals (xs ++ ys) ≡ proposals xs
proposals-append_silent xs ys h =
    proposals-append xs ys ∙ ap (λ (t : List P2a). proposals xs ++ t) h ∙ append-nil (proposals xs)

-- The node has broadcast `m`.
abbrev pub HasProposed : PigPaxos → P2a → Type 0
HasProposed p m = Memᴰ m (proposals p.out)

-- The proposals of a node stand under ballots of its own; those at its present ballot are at slots
-- that it has used, with the commands that are still in the log; and there is one command for each
-- ballot and slot.
pub record Proposing (p : PigPaxos) : Type 0 where
  pub leads : OwnsBallot p
  pub owned : (m : P2a) → HasProposed p m → owner m.ballot ≡ p.id
  pub below : (m : P2a) → HasProposed p m → m.ballot ≤ p.ballot
  pub current :
      (m : P2a) → HasProposed p m → m.ballot ≡ p.ballot → (p.active ≡ true) × (m.slot < p.next_slot)
  pub logged :
      (m : P2a) (e : Entry)
      → HasProposed p m
      → m.ballot ≡ p.ballot
      → lookup m.slot p.log ≡ some e
      → e.commit ≡ false
      → e.command ≡ m.command
  pub once :
      (m n : P2a)
      → HasProposed p m
      → HasProposed p n
      → m.ballot ≡ n.ballot
      → m.slot ≡ n.slot
      → m.command ≡ n.command

-- ===== src/Pig/Proposals/Once.antt =====
-- Over a run, a node proposes one command for each of its ballots and each slot.
use mathlib.Core.List.Memᴰ
use pigpaxos.Prelude.{ℕ, ◌+◌, ◌^◌, ◌≤◌, ◌<◌, ◌≡◌, refl, sym, ◌∙◌, some, Bool, arith, some_inj}
use pigpaxos.Ballot.{number, owner}
use pigpaxos.Config.{Config}
use pigpaxos.Pig.Msg.{P2a}
use pigpaxos.Pig.State.{PigPaxos}
use pigpaxos.Pig.Step.{
  Event, request, prepare, promise, accept, accepted, committed, recover_request, recover_reply,
  timeout, executed, cleanup, handle,
}
use pigpaxos.Pig.Ballots.{OwnsBallot, handle-Advances}
use pigpaxos.Pig.Invariant.Calls.{IsValid, new_pig_paxos-IsValid}
use pigpaxos.Pig.Invariant.Runs.{handle-IsValid}
use pigpaxos.Pig.Proposals.{HasProposed, Proposing}
use pigpaxos.Pig.Proposals.Quiet.{Quiet-Proposing}
use pigpaxos.Pig.Proposals.Steps.{handle_p1a-Quiet}
use pigpaxos.Pig.Proposals.Handlers.{
  handle_p2a-Quiet, handle_p3-Quiet, handle_recover_request-Quiet, handle_recover_reply-Quiet,
  handle_p2b-Quiet, cleanup_log-Quiet, update_executed-Quiet,
}
use pigpaxos.Pig.Run.{IsDelivered, IsDelivered-IsWellFormed, Run, start, next}
use pigpaxos.Pig.Proposals.Promise.{handle_p1b-Proposing, handle_request-Proposing}
use pigpaxos.Pig.Proposals.Retry.{check_timeout-Proposing}

handle-Proposing :
    (c : Config) (e : Event) (p q : PigPaxos)
    → number p.ballot + 1 < 2 ^ 32
    → p.id < 2 ^ 32
    → IsDelivered p e
    → p.execute ≤ p.next_slot
    → handle c e p ≡ some q
    → OwnsBallot q
    → Proposing p
    → Proposing q
unfolding handle
handle-Proposing c (request now r) p q h hi d k eq own v =
    rw (some_inj eq) at (handle_request-Proposing now r p h hi (rw (sym (some_inj eq)) at own) v)
handle-Proposing c (prepare m to) p q h hi d k eq own v =
    Quiet-Proposing own (rw (some_inj eq) at (handle_p1a-Quiet m to p)) v
handle-Proposing c (promise now m) p q h hi d k eq own v =
    rw (some_inj eq) at (handle_p1b-Proposing c now m p k v)
handle-Proposing c (accept m to) p q h hi d k eq own v =
    Quiet-Proposing own (rw (some_inj eq) at (handle_p2a-Quiet c m to p d)) v
handle-Proposing c (accepted now slot b ids) p q h hi d k eq own v =
    Quiet-Proposing own (handle_p2b-Quiet c now slot b ids p q eq) v
handle-Proposing c (committed m) p q h hi d k eq own v =
    Quiet-Proposing own (rw (some_inj eq) at (handle_p3-Quiet c m p)) v
handle-Proposing c (recover_request m) p q h hi d k eq own v =
    Quiet-Proposing own (rw (some_inj eq) at (handle_recover_request-Quiet m p)) v
handle-Proposing c (recover_reply m) p q h hi d k eq own v =
    Quiet-Proposing own (rw (some_inj eq) at (handle_recover_reply-Quiet m p)) v
handle-Proposing c (timeout t now) p q h hi d k eq own v =
    rw (some_inj eq) at (check_timeout-Proposing t now p v)
handle-Proposing c (executed id last) p q h hi d k eq own v =
    Quiet-Proposing own (rw (some_inj eq) at (update_executed-Quiet id last p)) v
handle-Proposing c cleanup p q h hi d k eq own v =
    Quiet-Proposing own (rw (some_inj eq) at (cleanup_log-Quiet p)) v

-- What holds of a node at every moment of a run.
pub record Sound (id : ℕ) (p : PigPaxos) : Type 0 where
  pub same : p.id ≡ id
  pub valid : IsValid p
  pub proposing : Proposing p

pub Run-Sound :
    {c : Config} {id : ℕ} {multiversion : Bool} {q : PigPaxos}
    → id < 2 ^ 32
    → Run c id multiversion q
    → Sound id q
Run-Sound {id} {multiversion} hi start = record {
  same = refl;
  valid = new_pig_paxos-IsValid id multiversion;
  proposing = record {
    leads = λ e. cc;
    owned = λ m k. absurd (Memᴰ.not-nil k);
    below = λ m k. absurd (Memᴰ.not-nil k);
    current = λ m k. absurd (Memᴰ.not-nil k);
    logged = λ m e k. absurd (Memᴰ.not-nil k);
    once = λ m n k. absurd (Memᴰ.not-nil k);
  };
}
Run-Sound {c} {id} hi (next {p = p} {q = q} before e h d eq) =
    let s = Run-Sound hi before in
    let hi' : p.id < 2 ^ 32 = omega (arith, s.same) in
    let a = handle-Advances c e p q h hi' eq in
    record {
      same = a.id ∙ s.same;
      valid = handle-IsValid c e p q h hi' (IsDelivered-IsWellFormed p e d) eq s.valid;
      proposing =
          handle-Proposing c e p q h hi' d s.valid.executed eq (a.owned s.proposing.leads)
            s.proposing;
    }

-- Whatever a node has handled since its start, two P2a messages that it has broadcast for the same
-- slot under the same ballot carry the same command, and each stands under a ballot of the node
-- that is not above its present one.
pub one_command_per_ballot :
    (c : Config) (id : ℕ) (multiversion : Bool) (p : PigPaxos) (m n : P2a)
    → id < 2 ^ 32
    → Run c id multiversion p
    → HasProposed p m
    → HasProposed p n
    → (m.ballot ≡ n.ballot → m.slot ≡ n.slot → m.command ≡ n.command)
      × (owner m.ballot ≡ id)
      × (m.ballot ≤ p.ballot)
one_command_per_ballot c id multiversion p m n hi run k l =
    let s = Run-Sound hi run in
    (s.proposing.once m n k l, s.proposing.owned m k ∙ s.same, s.proposing.below m k)

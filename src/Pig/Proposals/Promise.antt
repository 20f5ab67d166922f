-- ===== src/Pig/Proposals/Promise.antt =====
-- The proposals under requests and promises.
use mathlib.Core.List.{append-nil}
use pigpaxos.Prelude.{
  ℕ, ◌+◌, ◌^◌, ◌≤◌, ◌<◌, ◌≡◌, refl, sym, ◌∙◌, max, List, [], ◌∷◌, ◌++◌, false, not, ◌&&◌, ◌||◌,
  ◌==◌, ltb, arith, if_elim,
}
use pigpaxos.Prelude.Assoc.{lookup, insert}
use pigpaxos.Ballot.{number, owner}
use pigpaxos.Config.{Config}
use pigpaxos.Quorum.{ack, majority}
use pigpaxos.Pig.Msg.{CommandBallot, Request, P1b}
use pigpaxos.Pig.State.{PigPaxos, forward_requests}
use pigpaxos.Pig.Prepare.{merge, Slots, update}
use pigpaxos.Pig.Accept.{count_promise, merge_promise, handle_p1b, handle_request}
use pigpaxos.Pig.Ballots.{OwnsBallot}
use pigpaxos.Pig.Proposals.{proposals-append_silent, Proposing}
use pigpaxos.Pig.Proposals.Quiet.{Quiet, Quiet-trans, Quiet-Proposing, rises, idle}
use pigpaxos.Pig.Proposals.Steps.{still, proposals_forwards, start_p1a-Quiet}
use pigpaxos.Pig.Proposals.Lead.{start_p2a-Proposing, lead-Proposing}

pub next_slot-update :
    (scb : List (ℕ × CommandBallot)) (x : Slots) → x.next_slot ≤ (update scb x).next_slot
unfolding update
next_slot-update [] x = omega arith
next_slot-update ((s, cb) ∷ rest) x = omega (
  arith,
  next_slot-update rest (record {
    log = insert s (merge cb (lookup s x.log)) x.log;
    next_slot = max x.next_slot (s + 1);
  }),
)

pub merge_promise-Quiet : (m : P1b) (p : PigPaxos) → p.active ≡ false → Quiet p (merge_promise m p)
unfolding merge_promise forward_requests
merge_promise-Quiet m p off =
    if_elim (Quiet p) (ltb p.ballot m.ballot) _ _
      (λ higher. record {
        id = refl;
        silent = proposals-append_silent p.out _ (proposals_forwards (owner m.ballot) p.requests);
        moved = rises (ground arith);
      })
      (λ lower. record { id = refl; silent = refl; moved = idle off refl })

-- A follower that has merged a promise is still one, within its log.
merge_promise_follows :
    (m : P1b) (p : PigPaxos)
    → p.active ≡ false
    → p.execute ≤ p.next_slot
    → ((merge_promise m p).active ≡ false)
      × ((merge_promise m p).execute ≤ (merge_promise m p).next_slot)
unfolding merge_promise forward_requests
merge_promise_follows m p off h =
    let up = next_slot-update m.log (record { log = p.log; next_slot = p.next_slot }) in
    (ground arith, ground (arith, up))

count_promise-Proposing :
    (c : Config) (now : ℕ) (m : P1b) (p : PigPaxos)
    → p.active ≡ false
    → p.execute ≤ p.next_slot
    → Proposing p
    → Proposing (count_promise c now m p)
unfolding count_promise
count_promise-Proposing c now m p off h v =
    let counted : Proposing (record p { quorum = ack p.quorum m.id }) = record {
      leads = v.leads;
      owned = v.owned;
      below = v.below;
      current = v.current;
      logged = v.logged;
      once = v.once;
    } in
    if_elim Proposing (owner m.ballot == p.id && m.ballot == p.ballot) _ _
      (λ mine.
        if_elim Proposing (majority c (ack p.quorum m.id)) _ _
          (λ enough. lead-Proposing now _ off (ground arith) h counted) (λ few. counted))
      (λ other. v)

pub handle_p1b-Proposing :
    (c : Config) (now : ℕ) (m : P1b) (p : PigPaxos)
    → p.execute ≤ p.next_slot
    → Proposing p
    → Proposing (handle_p1b c now m p)
unfolding handle_p1b
handle_p1b-Proposing c now m p h v =
    if_elim Proposing (ltb m.ballot p.ballot || p.active) _ _ (λ old. v)
      (λ new.
        let off : p.active ≡ false = ground arith in
        let (off', h') = merge_promise_follows m p off h in
        count_promise-Proposing c now m (merge_promise m p) off' h'
          (Quiet-Proposing (λ on. cc (sym off' ∙ on)) (merge_promise-Quiet m p off) v))

pub handle_request-Proposing :
    (now : ℕ) (r : Request) (p : PigPaxos)
    → number p.ballot + 1 < 2 ^ 32
    → p.id < 2 ^ 32
    → OwnsBallot (handle_request now r p)
    → Proposing p
    → Proposing (handle_request now r p)
unfolding handle_request
handle_request-Proposing now r p h hi leads v =
    let q : PigPaxos = record p { requests = p.requests ++ r ∷ [] } in
    let queued : Quiet p q = still p q [] refl (sym (append-nil p.out)) refl refl refl refl refl in
    if_elim (λ (x : PigPaxos). OwnsBallot x → Proposing x) (not p.active) _ _
      (λ follows.
        if_elim (λ (x : PigPaxos). OwnsBallot x → Proposing x) (not (owner p.ballot == p.id)) _ _
          (λ other own. Quiet-Proposing own (Quiet-trans queued (start_p1a-Quiet now q h hi)) v)
          (λ waiting own. Quiet-Proposing own queued v))
      (λ leads own. start_p2a-Proposing now p r (ground arith) v) leads

-- ===== src/Pig/Proposals/Steps.antt =====
-- What the handlers do to the proposals, but for the beginning of a leadership.
use pigpaxos.Prelude.{
  ℕ, ◌+◌, ◌^◌, ◌<◌, ◌≡◌, ◌≢◌, refl, ap, ◌∙◌, List, [], ◌∷◌, ◌++◌, Option, none, some, not, ◌&&◌,
  ◌==◌, ltb, leb, arith, inl, inr, Bool-cases, if_elim, map,
}
use pigpaxos.Prelude.Assoc.{lookup}
use pigpaxos.Ballot.{number, owner}
use pigpaxos.Ballot.Order.{next_above}
use pigpaxos.Db
use pigpaxos.Db.{Value}
use pigpaxos.Pig.Msg.{Request, P1a, P2a}
use pigpaxos.Pig.State.{Entry, Out, forward, PigPaxos, forward_requests}
use pigpaxos.Pig.Prepare.{start_p1a, retry_p1a, adopt, handle_p1a}
use pigpaxos.Pig.Accept.{accept_out, accept_p2a, vote_p2a}
use pigpaxos.Pig.Proposals.{proposals, proposals-append_silent}
use pigpaxos.Pig.Proposals.Quiet.{
  Keeps-refl, Quiet, Quiet-refl, Quiet-trans, rises, steady, foreign,
}

pub proposals_forwards : (to : ℕ) (rs : List Request) → proposals (map (forward to) rs) ≡ []
proposals_forwards to [] = refl
proposals_forwards to (r ∷ rs) = proposals_forwards to rs

-- A record update that leaves the log and the role alone.
pub still :
    (p q : PigPaxos) (os : List Out)
    → q.id ≡ p.id
    → q.out ≡ p.out ++ os
    → proposals os ≡ []
    → q.ballot ≡ p.ballot
    → q.active ≡ p.active
    → q.next_slot ≡ p.next_slot
    → q.log ≡ p.log
    → Quiet p q
still p q os id out silent ballot active slots log = record {
  id = id;
  silent = ap proposals out ∙ proposals-append_silent p.out os silent;
  moved = steady (record {
    ballot = ballot;
    active = active;
    slots = omega arith;
    log = rw log (Keeps-refl p.log);
  });
}

pub start_p1a-Quiet :
    (now : ℕ) (p : PigPaxos)
    → number p.ballot + 1 < 2 ^ 32
    → p.id < 2 ^ 32
    → Quiet p (start_p1a now p)
unfolding start_p1a
start_p1a-Quiet now p h hi =
    if_elim (Quiet p) p.active _ _ (λ leads. Quiet-refl p)
      (λ follows. record {
        id = refl;
        silent = proposals-append_silent p.out _ refl;
        moved = rises ((next_above p.ballot p.ballot p.id p.id h h hi hi).0);
      })

pub retry_p1a-Quiet : (now : ℕ) (p : PigPaxos) → Quiet p (retry_p1a now p)
unfolding retry_p1a
retry_p1a-Quiet now p =
    if_elim (Quiet p) p.active _ _ (λ leads. Quiet-refl p)
      (λ follows. still p _ _ refl refl refl refl refl refl refl)

adopt-Quiet : (m : P1a) (p : PigPaxos) → Quiet p (adopt m p)
unfolding adopt forward_requests
adopt-Quiet m p =
    if_elim (Quiet p) (ltb p.ballot m.ballot) _ _
      (λ higher. record {
        id = refl;
        silent = proposals-append_silent p.out _ (proposals_forwards (owner m.ballot) p.requests);
        moved = rises (ground arith);
      })
      (λ lower. Quiet-refl p)

pub handle_p1a-Quiet : (m : P1a) (to : ℕ) (p : PigPaxos) → Quiet p (handle_p1a m to p)
unfolding handle_p1a
handle_p1a-Quiet m to p =
    Quiet-trans (adopt-Quiet m p) (still _ _ _ refl refl refl refl refl refl refl)

silent_forward : (m : P2a) (o : Option Entry) → proposals (accept_out m o) ≡ []
silent_forward m none = refl
silent_forward m (some e) =
    elim (Bool-cases
      (not e.commit && ltb e.ballot m.ballot && not (Db.equal e.command m.command))) [
        | inr no_need ↦ rw no_need refl
        | inl needed ↦ rw needed (silent_request (owner m.ballot) e.request)
      ]
  where
    silent_request :
        (to : ℕ) (o : Option Request)
        → proposals (elim o [ none ↦ [] | some r ↦ forward to r ∷ [] ]) ≡ []
    silent_request to none = refl
    silent_request to (some r) = refl

accept_p2a-Quiet : (m : P2a) (p : PigPaxos) → owner m.ballot ≢ p.id → Quiet p (accept_p2a m p)
unfolding accept_p2a
accept_p2a-Quiet m p other = elim (Bool-cases (leb p.ballot m.ballot)) [
  | inr stale ↦ rw stale (Quiet-refl p)
  | inl current ↦ rw current (record {
    id = refl;
    silent = proposals-append_silent p.out _ (silent_forward m (lookup m.slot p.log));
    moved = elim (Bool-cases (p.ballot == m.ballot)) [
      | inl same ↦
          let e : m.ballot ≡ p.ballot = ground arith in foreign (λ o. other (ap owner e ∙ o)) e
      | inr less ↦ rises (ground arith)
    ];
  })
]

pub vote_p2a-Quiet :
    (m : P2a) (to : ℕ) (p : PigPaxos) → owner m.ballot ≢ p.id → Quiet p (vote_p2a m to p)
unfolding vote_p2a
vote_p2a-Quiet m to p other =
    Quiet-trans (accept_p2a-Quiet m p other) (still _ _ _ refl refl refl refl refl refl refl)

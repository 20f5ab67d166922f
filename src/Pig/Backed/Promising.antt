-- ===== src/Pig/Backed/Promising.antt =====
-- Requests and promises keep a node backed.
use pigpaxos.Prelude.{
  ℕ, ◌≡◌, ◌≢◌, refl, List, [], ◌∷◌, ◌++◌, Option, none, some, not, ◌&&◌, ◌||◌, ◌==◌, ltb, if_elim,
}
use pigpaxos.Prelude.Assoc.{lookup}
use pigpaxos.Ballot.{owner}
use pigpaxos.Config.{Config}
use pigpaxos.Db.{Command}
use pigpaxos.Quorum.{ack, majority}
use pigpaxos.Pig.Msg.{CommandBallot, Request, P1b}
use pigpaxos.Pig.State.{Entry, PigPaxos, forward_requests}
use pigpaxos.Pig.Prepare.{Slots, merge, update}
use pigpaxos.Pig.Accept.{handle_request, count_promise, merge_promise, handle_p1b}
use pigpaxos.Pig.Backed.{
  ReportsBacked, LogBacked, Backed, ProposalsBacked, OutsBacked-append, LogBacked-insert,
}
use pigpaxos.Pig.Backed.Outs.{forwards-Backed}
use pigpaxos.Pig.Backed.Proposing.{start_p1a-Backed, start_p2a-Backed, lead-Backed}

module _ (B : ℕ → ℕ → Command → Type 0) where
  update-Backed :
      (b : ℕ) (scb : List (ℕ × CommandBallot)) (x : Slots)
      → ReportsBacked B b scb
      → LogBacked B x.log
      → LogBacked B (update scb x).log
  unfolding update
  update-Backed b [] x h k = k
  update-Backed b ((s, cb) ∷ rest) x h k = update-Backed b rest _ h.1 (
      LogBacked-insert B s (merge cb (lookup s x.log)) x.log
        (merged (lookup s x.log) (λ e at. k s e at)) k)
    where
      merged :
          (o : Option Entry)
          → ((e : Entry) → o ≡ some e → e.ballot ≢ 0 → B e.ballot s e.command)
          → (merge cb o).ballot ≢ 0
          → B (merge cb o).ballot s (merge cb o).command
      merged none v = h.0.1
      merged (some e) v =
          if_elim (λ (f : Entry). f.ballot ≢ 0 → B f.ballot s f.command)
            (not e.commit && ltb e.ballot cb.ballot)
            (record e { ballot = cb.ballot; command = cb.command }) e (λ newer. h.0.1)
            (λ older. v e refl)

  merge_promise-Backed :
      (m : P1b) (p : PigPaxos)
      → ReportsBacked B m.ballot m.log
      → Backed B p
      → Backed B (merge_promise m p)
  unfolding merge_promise forward_requests
  merge_promise-Backed m p h k =
      let merged =
        update-Backed m.ballot m.log (record { log = p.log; next_slot = p.next_slot }) h k.log in
      if_elim (Backed B) (ltb p.ballot m.ballot) _ _
        (λ higher. record {
          log = merged;
          out = OutsBacked-append B p.out _ k.out (forwards-Backed B (owner m.ballot) p.requests);
        })
        (λ lower. record { log = merged; out = k.out })

  count_promise-Backed :
      (c : Config) (now : ℕ) (m : P1b) (p : PigPaxos)
      → ProposalsBacked B (count_promise c now m p)
      → Backed B p
      → Backed B (count_promise c now m p)
  unfolding count_promise
  count_promise-Backed c now m p proposed k =
      let counted : Backed B (record p { quorum = ack p.quorum m.id }) = record {
        log = k.log;
        out = k.out;
      } in
      if_elim (λ (q : PigPaxos). ProposalsBacked B q → Backed B q)
        (owner m.ballot == p.id && m.ballot == p.ballot) _ _
        (λ mine.
          if_elim (λ (q : PigPaxos). ProposalsBacked B q → Backed B q)
            (majority c (ack p.quorum m.id)) _ _
            (λ enough to_back. lead-Backed B now _ to_back counted) (λ few _. counted))
        (λ other _. k) proposed

  pub handle_p1b-Backed :
      (c : Config) (now : ℕ) (m : P1b) (p : PigPaxos)
      → ReportsBacked B m.ballot m.log
      → ProposalsBacked B (handle_p1b c now m p)
      → Backed B p
      → Backed B (handle_p1b c now m p)
  unfolding handle_p1b
  handle_p1b-Backed c now m p h proposed k =
      if_elim (λ (q : PigPaxos). ProposalsBacked B q → Backed B q)
        (ltb m.ballot p.ballot || p.active) _ _ (λ old _. k)
        (λ new to_back.
          count_promise-Backed c now m (merge_promise m p) to_back (merge_promise-Backed m p h k))
        proposed

  pub handle_request-Backed :
      (now : ℕ) (r : Request) (p : PigPaxos)
      → ProposalsBacked B (handle_request now r p)
      → Backed B p
      → Backed B (handle_request now r p)
  unfolding handle_request
  handle_request-Backed now r p proposed k =
      let queued : Backed B (record p { requests = p.requests ++ r ∷ [] }) = record {
        log = k.log;
        out = k.out;
      } in
      if_elim (λ (q : PigPaxos). ProposalsBacked B q → Backed B q) (not p.active) _ _
        (λ follows _.
          if_elim (Backed B) (not (owner p.ballot == p.id)) _ _
            (λ other. start_p1a-Backed B now _ queued) (λ waiting. queued))
        (λ leads to_back. start_p2a-Backed B now p r to_back k) proposed

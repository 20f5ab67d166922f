-- ===== src/Pig/Votes.antt =====
-- What `HandleP2b` may do, case by case.
use pigpaxos.Prelude.{
  ℕ, ◌≤◌, ◌≡◌, sym, ◌∙◌, List, none, some, true, false, ◌&&◌, ◌||◌, ◌==◌, ltb, arith, Bool-cases,
  Option-cases, some_inj, inl, inr, ◌⊎◌,
}
use pigpaxos.Prelude.Assoc.{lookup, insert}
use pigpaxos.Ballot.{owner}
use pigpaxos.Config.{Config}
use pigpaxos.Quorum.{Quorum, majority}
use pigpaxos.Quorum.Valid.{ack_all}
use pigpaxos.Pig.State.{Entry, Out, reply, PigPaxos, emit}
use pigpaxos.Pig.Exec.{exec}
use pigpaxos.Pig.Accept.{step_down, after_commit, commit_entry, count_votes, handle_p2b}

-- The outcomes of counting votes for the entry `e` at `slot`: the votes are not for the entry's
-- ballot, or they make no majority yet, or the slot is chosen.
pub data Votes (c : Config) (slot b : ℕ) (ids : List ℕ) (e : Entry) (p q : PigPaxos) : Type 0 where
  ignored : (owner b == p.id && b == e.ballot) ≡ false → q ≡ p → Votes c slot b ids e p q
  recorded :
      (old : Quorum)
      → e.quorum ≡ some old
      → b ≡ e.ballot
      → majority c (ack_all old ids) ≡ false
      → q ≡ record p { log = insert slot (record e { quorum = some (ack_all old ids) }) p.log }
      → Votes c slot b ids e p q
  chosen :
      (old : Quorum)
      → e.quorum ≡ some old
      → b ≡ e.ballot
      → majority c (ack_all old ids) ≡ true
      → after_commit
          (record e { quorum = some (ack_all old ids); commit = true })
          (commit_entry c slot (record e { quorum = some (ack_all old ids) }) p)
        ≡ some q
      → Votes c slot b ids e p q

count_votes-outcome :
    (c : Config) (slot b : ℕ) (ids : List ℕ) (e : Entry) (p q : PigPaxos)
    → count_votes c slot b ids e p ≡ some q
    → Votes c slot b ids e p q
unfolding count_votes
count_votes-outcome c slot b ids e p q h = elim (Bool-cases (owner b == p.id && b == e.ballot)) [
  | inr other ↦
      let run : count_votes c slot b ids e p ≡ some p = rw other in
      ignored other (some_inj (sym h ∙ run))
  | inl mine ↦ elim (Option-cases e.quorum) [
    | inl nil ↦ let run : count_votes c slot b ids e p ≡ none = rw (mine, nil) in cc (sym run ∙ h)
    | inr (old, has) ↦ elim (Bool-cases (majority c (ack_all old ids))) [
      | inl enough ↦
          let run : count_votes c slot b ids e p
              ≡ after_commit (record e { quorum = some (ack_all old ids); commit = true })
                  (commit_entry c slot (record e { quorum = some (ack_all old ids) }) p) =
            rw (mine, has, enough) in
          chosen old has (ground arith) enough (sym run ∙ h)
      | inr few ↦
          let run : count_votes c slot b ids e p
              ≡ some (record p {
                log = insert slot (record e { quorum = some (ack_all old ids) }) p.log;
              }) =
            rw (mine, has, few) in
          recorded old has (ground arith) few (some_inj (sym h ∙ run))
    ]
  ]
]

-- `HandleP2b` returns the node unchanged, or counts the votes for an uncommitted entry after it has
-- stepped down to a higher ballot.
pub handle_p2b-outcome :
    (c : Config) (now slot b : ℕ) (ids : List ℕ) (p q : PigPaxos)
    → handle_p2b c now slot b ids p ≡ some q
    → (q ≡ p)
      ⊎ ((e : Entry) × (lookup slot p.log ≡ some e)
          × (e.ballot ≤ b)
          × (e.commit ≡ false)
          × Votes c slot b ids e (step_down now b p) q)
unfolding handle_p2b
handle_p2b-outcome c now slot b ids p q h = elim (Option-cases (lookup slot p.log)) [
  | inl nothing ↦
      let run : handle_p2b c now slot b ids p ≡ some p = rw (nothing, handle_p2b) in
      inl (some_inj (sym h ∙ run))
  | inr (e, has) ↦ elim (Bool-cases (ltb b e.ballot || e.commit)) [
    | inl old ↦
        let run : handle_p2b c now slot b ids p ≡ some p = rw (has, handle_p2b) (rw old) in
        inl (some_inj (sym h ∙ run))
    | inr new ↦
        let run : handle_p2b c now slot b ids p ≡ count_votes c slot b ids e (step_down now b p) =
          rw (has, handle_p2b) (rw new) in
        inr (
          e,
          has,
          ground arith,
          ground arith,
          count_votes-outcome c slot b ids e (step_down now b p) q (sym run ∙ h),
        )
  ]
]

-- After a commit the node runs the log or answers the request.
pub after_commit-outcome :
    (e : Entry) (p q : PigPaxos)
    → after_commit e p ≡ some q
    → (q ≡ exec p) ⊎ ((o : Out) × (q ≡ emit o p))
unfolding after_commit
after_commit-outcome e p q h = elim (Bool-cases p.reply_when_commit) [
  | inr runs ↦
      let run : after_commit e p ≡ some (exec p) = simp (runs) in inl (some_inj (sym h ∙ run))
  | inl answers ↦ elim (Option-cases e.request) [
    | inl nil ↦ let run : after_commit e p ≡ none = simp (answers, nil) in cc (sym run ∙ h)
    | inr (r, has) ↦
        let run : after_commit e p
            ≡ some (
                emit
                  (reply r (record { command = r.command; value = none; timestamp = r.timestamp }))
                  p) =
          simp (answers, has) in
        inr (_, some_inj (sym h ∙ run))
  ]
]

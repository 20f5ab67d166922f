-- ===== src/Pig/Proposals/Handlers.antt =====
-- The handlers of phase 3, of votes and of recovery, and the cleanup propose nothing.
use pigpaxos.Prelude.{
  ℕ, zero, suc, ◌+◌, ◌-◌, ◌≡◌, ◌≢◌, refl, ap, sym, ◌∙◌, max, List, [], ◌∷◌, Option, none, some,
  Bool, true, false, ◌==◌, ltb, arith, inl, inr, Bool-cases, Option-cases, some_inj, if_elim,
  length, if◌then◌else◌,
}
use pigpaxos.Prelude.Assoc.{lookup, insert, erase}
use pigpaxos.Ballot.{owner}
use pigpaxos.Config.{Config}
use pigpaxos.Pig.Msg.{P2a, P3, P3RecoverRequest, P3RecoverReply}
use pigpaxos.Pig.State.{retro}
use pigpaxos.Pig.State.{Entry, reply, PigPaxos, emit}
use pigpaxos.Pig.Exec.{exec}
use pigpaxos.Pig.Accept.{vote_p2a, step_down}
use pigpaxos.Pig.Commit.{
  commit_slots, handle_p3, handle_p2a, answer_recovery, handle_recover_request, recovered_log,
  handle_recover_reply,
}
use pigpaxos.Pig.Maintain.{update_executed, delete_slots, cleanup_log}
use pigpaxos.Pig.Proposals.{proposals, proposals-append_silent}
use pigpaxos.Pig.Proposals.Quiet.{
  Keeps, Keeps-refl, Keeps-trans, Keeps-erase, Keeps-insert_done, Keeps-replace, Quiet, Quiet-refl,
  Quiet-trans, rises, steady,
}
use pigpaxos.Pig.Proposals.Steps.{still, vote_p2a-Quiet}
use pigpaxos.Pig.Votes.{Votes, ignored, recorded, chosen, handle_p2b-outcome}
use pigpaxos.Quorum.Valid.{ack_all}
use pigpaxos.Pig.Accept.{commit_entry, after_commit, handle_p2b}
use pigpaxos.Pig.Proposals.Commits.{commit_slots-Quiet, exec-Quiet}

pub handle_p3-Quiet : (c : Config) (m : P3) (p : PigPaxos) → Quiet p (handle_p3 c m p)
unfolding handle_p3
handle_p3-Quiet c m p =
    Quiet-trans (commit_slots-Quiet c m.ballot m.slots p)
      (exec-Quiet (commit_slots c m.ballot m.slots p))

pub handle_p2a-Quiet :
    (c : Config) (m : P2a) (to : ℕ) (p : PigPaxos)
    → owner m.ballot ≢ p.id
    → Quiet p (handle_p2a c m to p)
unfolding handle_p2a
handle_p2a-Quiet c m to p other =
    let voted = vote_p2a-Quiet m to p other in
    if_elim (Quiet p) (ltb 0 (length m.p3msg.slots)) _ _
      (λ more. Quiet-trans voted (handle_p3-Quiet c m.p3msg (vote_p2a m to p))) (λ done. voted)

answer_recovery-Quiet :
    (m : P3RecoverRequest) (o : Option Entry) (p : PigPaxos) → Quiet p (answer_recovery m o p)
unfolding answer_recovery
answer_recovery-Quiet m none p = Quiet-refl p
answer_recovery-Quiet m (some e) p =
    if_elim (Quiet p) e.commit _ _ (λ done. still p _ _ refl refl refl refl refl refl refl)
      (λ open_yet. Quiet-refl p)

pub handle_recover_request-Quiet :
    (m : P3RecoverRequest) (p : PigPaxos) → Quiet p (handle_recover_request m p)
unfolding handle_recover_request
handle_recover_request-Quiet m p =
    Quiet-trans (answer_recovery-Quiet m (lookup m.slot p.log) p)
      (exec-Quiet (answer_recovery m (lookup m.slot p.log) p))

recovered_log-Keeps :
    (m : P3RecoverReply) (o : Option Entry) (log : List (ℕ × Entry))
    → Keeps log (recovered_log m o log)
unfolding recovered_log
recovered_log-Keeps m none log = Keeps-refl log
recovered_log-Keeps m (some e) log =
    Keeps-insert_done m.slot (record e { command = m.command; ballot = m.ballot; commit = true })
      log refl

pub handle_recover_reply-Quiet :
    (m : P3RecoverReply) (p : PigPaxos) → Quiet p (handle_recover_reply m p)
unfolding handle_recover_reply
handle_recover_reply-Quiet m p =
    Quiet-trans
      {q = record p {
        next_slot = max p.next_slot (m.slot + 1);
        log = recovered_log m (lookup m.slot p.log) p.log;
      }}
      (record {
        id = refl;
        silent = refl;
        moved = steady (record {
          ballot = refl;
          active = refl;
          slots = omega arith;
          log = recovered_log-Keeps m (lookup m.slot p.log) p.log;
        });
      })
      (exec-Quiet _)

step_down-Quiet : (now b : ℕ) (p : PigPaxos) → Quiet p (step_down now b p)
unfolding step_down
step_down-Quiet now b p =
    if_elim (Quiet p) (ltb p.ballot b) _ _
      (λ higher. record {
        id = refl;
        silent = proposals-append_silent p.out _ refl;
        moved = rises (ground arith);
      })
      (λ same. Quiet-refl p)

silent_after_commit : (e : Entry) (p q : PigPaxos) → after_commit e p ≡ some q → Quiet p q
unfolding after_commit
silent_after_commit e p q h = elim (Bool-cases p.reply_when_commit) [
  | inr runs ↦
      let run : after_commit e p ≡ some (exec p) = simp (runs) in
      rw (some_inj (sym h ∙ run)) (exec-Quiet p)
  | inl answers ↦ elim (Option-cases e.request) [
    | inl nil ↦ let run : after_commit e p ≡ none = simp (answers, nil) in cc (sym run ∙ h)
    | inr (r, has) ↦
        let run : after_commit e p
            ≡ some (
                emit
                  (reply r (record { command = r.command; value = none; timestamp = r.timestamp }))
                  p) =
          simp (answers, has) in
        rw (some_inj (sym h ∙ run)) (still p _ _ refl refl refl refl refl refl refl)
  ]
]

silent_log :
    (b : Bool) (s : ℕ) (e : Entry) → proposals (if b then retro s e.command ∷ [] else []) ≡ []
silent_log true s e = refl
silent_log false s e = refl

-- The entry with its votes counted takes the place of the old one.
replaced :
    (c : Config) (slot : ℕ) (e f : Entry) (p : PigPaxos)
    → lookup slot p.log ≡ some e
    → e.commit ≡ false
    → f.command ≡ e.command
    → Keeps p.log (insert slot f p.log)
replaced c slot e f p at open_yet same = Keeps-replace slot e f p.log at same (λ _. open_yet)

Votes-Quiet :
    {c : Config} {slot b : ℕ} {ids : List ℕ} {e : Entry} {p q : PigPaxos}
    → lookup slot p.log ≡ some e
    → e.commit ≡ false
    → Votes c slot b ids e p q
    → Quiet p q
unfolding commit_entry
Votes-Quiet at open_yet (ignored _ same) = rw same (Quiet-refl _)
Votes-Quiet {c} {slot} {ids} {e} {p} at open_yet (recorded old has _ _ same) = rw same (record {
  id = refl;
  silent = refl;
  moved = steady (record {
    ballot = refl;
    active = refl;
    slots = omega arith;
    log = replaced c slot e (record e { quorum = some (ack_all old ids) }) p at open_yet refl;
  });
})
Votes-Quiet {c} {slot} {ids} {e} {p} at open_yet (chosen old has _ _ done) =
    let f : Entry = record e { quorum = some (ack_all old ids); commit = true } in
    Quiet-trans {q = commit_entry c slot (record e { quorum = some (ack_all old ids) }) p}
      (record {
        id = refl;
        silent = proposals-append_silent p.out _ (silent_log c.use_retro_log slot e);
        moved = steady (record {
          ballot = refl;
          active = refl;
          slots = omega arith;
          log = replaced c slot e f p at open_yet refl;
        });
      })
      (silent_after_commit _ _ _ done)

pub log-step_down : (now b : ℕ) (p : PigPaxos) → (step_down now b p).log ≡ p.log
unfolding step_down
log-step_down now b p = ground arith

pub handle_p2b-Quiet :
    (c : Config) (now slot b : ℕ) (ids : List ℕ) (p q : PigPaxos)
    → handle_p2b c now slot b ids p ≡ some q
    → Quiet p q
handle_p2b-Quiet c now slot b ids p q h = elim (handle_p2b-outcome c now slot b ids p q h) [
  | inl same ↦ rw same (Quiet-refl p)
  | inr (e, at, _, open_yet, votes) ↦
      Quiet-trans (step_down-Quiet now b p)
        (Votes-Quiet (ap (lookup slot) (log-step_down now b p) ∙ at) open_yet votes)
]

delete_slots-Keeps : (i rounds : ℕ) (log : List (ℕ × Entry)) → Keeps log (delete_slots i rounds log)
unfolding delete_slots
delete_slots-Keeps i zero log = Keeps-refl log
delete_slots-Keeps i (suc rounds) log = elim (Bool-cases (i == 0)) [
  | inl none_yet ↦ rw none_yet (delete_slots-Keeps (i + 1) rounds log)
  | inr some_slot ↦ rw some_slot (
      Keeps-trans log (erase (i - 1) log) _ (Keeps-erase (i - 1) log)
        (delete_slots-Keeps (i + 1) rounds (erase (i - 1) log)))
]

pub cleanup_log-Quiet : (p : PigPaxos) → Quiet p (cleanup_log p)
unfolding cleanup_log
cleanup_log-Quiet p = record {
  id = refl;
  silent = refl;
  moved = steady (record {
    ballot = refl;
    active = refl;
    slots = omega arith;
    log = delete_slots-Keeps _ _ p.log;
  });
}

pub update_executed-Quiet : (id last : ℕ) (p : PigPaxos) → Quiet p (update_executed id last p)
unfolding update_executed
update_executed-Quiet id last p = record {
  id = refl;
  silent = refl;
  moved =
      steady (record { ballot = refl; active = refl; slots = omega arith; log = Keeps-refl p.log });
}

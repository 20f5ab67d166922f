-- ===== src/Pig/Durable.antt =====
-- When a slot becomes committed, and when its entry is dropped.
use pigpaxos.Prelude.{
  ℕ, zero, suc, ◌+◌, ◌-◌, ◌≤◌, ◌≡◌, ap, sym, ◌∙◌, List, [], ◌∷◌, none, some, true, false, ◌&&◌,
  ◌==◌, ltb, leb, arith, inl, inr, if◌then◌else◌, some_inj,
}
use pigpaxos.Prelude.Assoc.{lookup, insert, erase, lookup-insert, lookup-erase}
use pigpaxos.Config.{Config}
use pigpaxos.Quorum.{Quorum, majority}
use pigpaxos.Quorum.Valid.{ack_all}
use pigpaxos.Pig.State.{Entry, PigPaxos}
use pigpaxos.Pig.Accept.{step_down, after_commit, commit_entry, handle_p2b}
use pigpaxos.Pig.Maintain.{least_marker, cleanup_marker, delete_slots, cleanup_log}
use pigpaxos.Pig.Invariant.Logs.{lookup-exec}
use pigpaxos.Pig.Votes.{Votes, ignored, recorded, chosen, handle_p2b-outcome, after_commit-outcome}

step_down_log : (now b : ℕ) (p : PigPaxos) → (step_down now b p).log ≡ p.log
unfolding step_down
step_down_log now b p = ground arith

commit_entry-lookup :
    (c : Config) (slot : ℕ) (e : Entry) (p : PigPaxos)
    → lookup slot (commit_entry c slot e p).log ≡ some (record e { commit = true })
unfolding commit_entry
commit_entry-lookup c slot e p =
    ground (arith, lookup-insert slot slot (record e { commit = true }) p.log)

-- `f` has the command and the ballot of `e`.
abbrev pub SameProposal : Entry → Entry → Type 0
SameProposal e f = (f.command ≡ e.command) × (f.ballot ≡ e.ballot)

after_commit-SameProposal :
    (slot : ℕ) (e f g : Entry) (p q : PigPaxos)
    → lookup slot p.log ≡ some e
    → after_commit g p ≡ some q
    → lookup slot q.log ≡ some f
    → SameProposal e f
after_commit-SameProposal slot e f g p q at run after = elim (after_commit-outcome g p q run) [
  | inl ran ↦
      let (old, has, ballot, command, _, _) = lookup-exec p slot f (rw ran at after) in
      let same : old ≡ e = some_inj (sym has ∙ at) in
      (command ∙ ap (λ (x : Entry). x.command) same, ballot ∙ ap (λ (x : Entry). x.ballot) same)
  | inr (o, sent) ↦
      let same : e ≡ f =
        some_inj (sym at ∙ ap (λ (x : PigPaxos). lookup slot x.log) (sym sent) ∙ after) in
      (ap (λ (x : Entry). x.command) (sym same), ap (λ (x : Entry). x.ballot) (sym same))
]

open_stays :
    (e f : Entry) (p q : PigPaxos) (slot : ℕ)
    → lookup slot p.log ≡ some e
    → e.commit ≡ false
    → q ≡ p
    → lookup slot q.log ≡ some f
    → ¬ (f.commit ≡ true)
open_stays e f p q slot at open_yet same after done =
    let there : lookup slot p.log ≡ some f =
      ap (λ (x : PigPaxos). lookup slot x.log) (sym same) ∙ after in
    let ef : e ≡ f = some_inj (sym at ∙ there) in
    let shut : e.commit ≡ true = ap (λ (x : Entry). x.commit) ef ∙ done in cc (sym open_yet ∙ shut)

chosen_by :
    (c : Config) (slot b : ℕ) (ids : List ℕ) (e f : Entry) (p q : PigPaxos)
    → lookup slot p.log ≡ some e
    → e.commit ≡ false
    → Votes c slot b ids e p q
    → lookup slot q.log ≡ some f
    → f.commit ≡ true
    → (old : Quorum) × (e.quorum ≡ some old)
      × (b ≡ e.ballot)
      × (majority c (ack_all old ids) ≡ true)
      × SameProposal e f
chosen_by c slot b ids e f p q at open_yet (ignored _ same) after done =
    absurd (open_stays e f p q slot at open_yet same after done)
chosen_by c slot b ids e f p q at open_yet (recorded old has bal few same) after done = absurd (
    open_stays (record e { quorum = some (ack_all old ids) }) f
      (record p { log = insert slot (record e { quorum = some (ack_all old ids) }) p.log }) q slot
      (ground (arith, lookup-insert slot slot (record e { quorum = some (ack_all old ids) }) p.log))
      open_yet same after done)
chosen_by c slot b ids e f p q at open_yet (chosen old has bal enough run) after done = (
  old,
  has,
  bal,
  enough,
  after_commit-SameProposal slot (record e { quorum = some (ack_all old ids); commit = true }) f
      (record e { quorum = some (ack_all old ids); commit = true })
      (commit_entry c slot (record e { quorum = some (ack_all old ids) }) p) q
      (commit_entry-lookup c slot (record e { quorum = some (ack_all old ids) }) p) run after,
)

-- `HandleP2b` makes an uncommitted slot committed only when the votes are for the ballot of its
-- entry and the quorum of the entry, with the voters acknowledged, is a majority of all nodes; the
-- committed entry has the command and the ballot that were proposed.
pub commit_needs_majority :
    (c : Config) (now slot b : ℕ) (ids : List ℕ) (e f : Entry) (p q : PigPaxos)
    → lookup slot p.log ≡ some e
    → e.commit ≡ false
    → handle_p2b c now slot b ids p ≡ some q
    → lookup slot q.log ≡ some f
    → f.commit ≡ true
    → (old : Quorum) × (e.quorum ≡ some old)
      × (b ≡ e.ballot)
      × (majority c (ack_all old ids) ≡ true)
      × SameProposal e f
commit_needs_majority c now slot b ids e f p q at open_yet run after done =
    elim (handle_p2b-outcome c now slot b ids p q run) [
      | inl same ↦ absurd (open_stays e f p q slot at open_yet same after done)
      | inr (g, has, _, _, votes) ↦
          let eg : g ≡ e = some_inj (sym has ∙ at) in
          chosen_by c slot b ids e f (step_down now b p) q
            (ap (lookup slot) (step_down_log now b p) ∙ at) open_yet (rw eg at votes) after done
    ]

least_marker_first : (marker : ℕ) (others : List (ℕ × ℕ)) → least_marker marker others ≤ marker
unfolding least_marker
least_marker_first marker [] = omega arith
least_marker_first marker ((id, c) ∷ rest) =
    ground (arith, least_marker_first (if ltb c marker then c else marker) rest)

least_marker_each :
    (marker k c : ℕ) (others : List (ℕ × ℕ))
    → lookup k others ≡ some c
    → least_marker marker others ≤ c
unfolding least_marker lookup
least_marker_each marker k c [] h = cc
least_marker_each marker k c ((id, d) ∷ rest) h = ground (
  arith,
  least_marker_first (if ltb d marker then d else marker) rest,
  least_marker_each (if ltb d marker then d else marker) k c rest,
)

lookup-delete_slots :
    (s i rounds : ℕ) (log : List (ℕ × Entry))
    → lookup s (delete_slots i rounds log)
      ≡ (if leb i (s + 1) && ltb (s + 1) (i + rounds) then none else lookup s log)
unfolding delete_slots
lookup-delete_slots s i zero log = ground arith
lookup-delete_slots s i (suc rounds) log = ground (
  arith,
  lookup-delete_slots s (i + 1) rounds (if i == 0 then log else erase (i - 1) log),
  lookup-erase (i - 1) s log,
)

-- What `CleanupLog` drops, and how far it goes.
abbrev pub CleanedUp : PigPaxos → Type 0
CleanedUp p =
    ((s : ℕ)
      → lookup s (cleanup_log p).log ≡ (
          if leb p.last_cleanup (s + 1) && ltb (s + 1) (cleanup_log p).last_cleanup
          then none
          else lookup s p.log))
    × ((cleanup_log p).last_cleanup ≤ p.execute + 1)
    × ((k m : ℕ) → lookup k p.executed_by_node ≡ some m → (cleanup_log p).last_cleanup ≤ m)

-- `CleanupLog` drops the entries from its old marker up to its new one and keeps every other entry;
-- the new marker passes neither the node's own execution point nor the last execution that any
-- other node has reported.
pub cleanup_log_lem : (p : PigPaxos) → CleanedUp p
unfolding cleanup_log cleanup_marker
cleanup_log_lem p = (
  λ s. ground (
    arith,
    lookup-delete_slots s p.last_cleanup
        (least_marker (p.execute + 1) p.executed_by_node - p.last_cleanup) p.log,
  ),
  least_marker_first (p.execute + 1) p.executed_by_node,
  λ k m h. least_marker_each (p.execute + 1) k m p.executed_by_node h,
)

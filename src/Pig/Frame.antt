-- ===== src/Pig/Frame.antt =====
-- What the loops of the handlers leave alone.
use pigpaxos.Prelude.{ℕ, ◌≡◌, refl, List, [], ◌∷◌}
use pigpaxos.Config.{Config}
use pigpaxos.Pig.Msg.{Request}
use pigpaxos.Pig.State.{PigPaxos}
use pigpaxos.Pig.Exec.{exec}
use pigpaxos.Pig.Accept.{start_p2a, propose_all}
use pigpaxos.Pig.Commit.{commit_slots}

-- `q` is the same node in the same role as `p`.
pub record SameRole (p q : PigPaxos) : Type 0 where
  pub id : q.id ≡ p.id
  pub ballot : q.ballot ≡ p.ballot
  pub active : q.active ≡ p.active

pub exec-SameRole : (p : PigPaxos) → SameRole p (exec p)
unfolding exec
exec-SameRole p = record { id = refl; ballot = refl; active = refl }

pub next_slot-exec : (p : PigPaxos) → (exec p).next_slot ≡ p.next_slot
unfolding exec
next_slot-exec p = refl

pub commit_slots-SameRole :
    (c : Config) (b : ℕ) (slots : List ℕ) (p : PigPaxos) → SameRole p (commit_slots c b slots p)
unfolding commit_slots
commit_slots-SameRole c b [] p = record { id = refl; ballot = refl; active = refl }
commit_slots-SameRole c b (s ∷ slots) p =
    let r = commit_slots-SameRole c b slots _ in
    record { id = r.id; ballot = r.ballot; active = r.active }

pub propose_all-SameRole :
    (now : ℕ) (rs : List Request) (p : PigPaxos) → SameRole p (propose_all now rs p)
unfolding propose_all start_p2a
propose_all-SameRole now [] p = record { id = refl; ballot = refl; active = refl }
propose_all-SameRole now (r ∷ rs) p =
    let s = propose_all-SameRole now rs (start_p2a now p r) in
    record { id = s.id; ballot = s.ballot; active = s.active }

-- ===== src/Pig/Proposals/Quiet.antt =====
-- Steps of a node that propose nothing.
use pigpaxos.Prelude.{
  ℕ, ◌≤◌, ◌<◌, ◌≡◌, ◌≢◌, refl, ap, sym, ◌∙◌, List, some, true, false, ◌==◌, arith, inl, inr,
  Bool-cases, some_inj,
}
use pigpaxos.Prelude.Assoc.{lookup, insert, erase, lookup-insert, lookup-erase}
use pigpaxos.Ballot.{owner}
use pigpaxos.Pig.Msg.{P2a}
use pigpaxos.Pig.State.{Entry, PigPaxos}
use pigpaxos.Pig.Ballots.{OwnsBallot}
use pigpaxos.Pig.Proposals.{proposals, HasProposed, Proposing}

-- Every open entry of `new` is an open entry of `old` with the same command.
abbrev pub Keeps : List (ℕ × Entry) → List (ℕ × Entry) → Type 0
Keeps old new =
    (s : ℕ) (f : Entry)
    → lookup s new ≡ some f
    → f.commit ≡ false
    → (e : Entry) × (lookup s old ≡ some e) × (e.commit ≡ false) × (f.command ≡ e.command)

pub Keeps-refl : (log : List (ℕ × Entry)) → Keeps log log
Keeps-refl log s f at h = (f, at, h, refl)

pub Keeps-trans : (x y z : List (ℕ × Entry)) → Keeps x y → Keeps y z → Keeps x z
Keeps-trans x y z a b s g at h =
    let (f, at', h', same) = b s g at h in
    let (e, at'', h'', same') = a s f at' h' in (e, at'', h'', same ∙ same')

pub Keeps-erase : (s : ℕ) (log : List (ℕ × Entry)) → Keeps log (erase s log)
Keeps-erase s log t f at h = (f, ground (arith, lookup-erase s t log, at), h, refl)

-- A committed entry may be put anywhere.
pub Keeps-insert_done :
    (s : ℕ) (e : Entry) (log : List (ℕ × Entry)) → e.commit ≡ true → Keeps log (insert s e log)
Keeps-insert_done s e log done t f at h = elim (Bool-cases (s == t)) [
  | inl here ↦
      let same : some e ≡ some f = ground (arith, lookup-insert s t e log, at) in
      let shut : f.commit ≡ true = ap (λ (x : Entry). x.commit) (sym (some_inj same)) ∙ done in
      cc (sym h ∙ shut)
  | inr there ↦ (f, ground (arith, lookup-insert s t e log, at), h, refl)
]

-- An entry may be replaced by one with the same command.
pub Keeps-replace :
    (s : ℕ) (old e : Entry) (log : List (ℕ × Entry))
    → lookup s log ≡ some old
    → e.command ≡ old.command
    → (e.commit ≡ false → old.commit ≡ false)
    → Keeps log (insert s e log)
Keeps-replace s old e log has command opened t f at h = elim (Bool-cases (s == t)) [
  | inl here ↦
      let same : some e ≡ some f = ground (arith, lookup-insert s t e log, at) in
      let is : e ≡ f = some_inj same in
      let slot : s ≡ t = ground arith in
      (
        old,
        rw (← slot) has,
        opened (ap (λ (x : Entry). x.commit) is ∙ h),
        ap (λ (x : Entry). x.command) (sym is) ∙ command,
      )
  | inr there ↦ (f, ground (arith, lookup-insert s t e log, at), h, refl)
]

-- The ballot, the role and the commands of the open entries stay; slots are only added.
pub record Steady (p q : PigPaxos) : Type 0 where
  pub ballot : q.ballot ≡ p.ballot
  pub active : q.active ≡ p.active
  pub slots : p.next_slot ≤ q.next_slot
  pub log : Keeps p.log q.log

-- How a node may move that proposes nothing: to a higher ballot, steadily, under the ballot of
-- another node, or as a follower.
pub data Moved (p q : PigPaxos) : Type 0 where
  rises : p.ballot < q.ballot → Moved p q
  steady : Steady p q → Moved p q
  foreign : owner p.ballot ≢ p.id → q.ballot ≡ p.ballot → Moved p q
  idle : p.active ≡ false → q.ballot ≡ p.ballot → Moved p q

-- From `p` to `q` nothing is proposed.
pub record Quiet (p q : PigPaxos) : Type 0 where
  pub id : q.id ≡ p.id
  pub silent : proposals q.out ≡ proposals p.out
  pub moved : Moved p q

pub Steady-refl : (p : PigPaxos) → Steady p p
Steady-refl p = record { ballot = refl; active = refl; slots = omega arith; log = Keeps-refl p.log }

Steady-trans : {p q r : PigPaxos} → Steady p q → Steady q r → Steady p r
Steady-trans {p} {q} {r} a b = record {
  ballot = b.ballot ∙ a.ballot;
  active = b.active ∙ a.active;
  slots = omega (arith, a.slots, b.slots);
  log = Keeps-trans p.log q.log r.log a.log b.log;
}

Moved-trans : {p q r : PigPaxos} → q.id ≡ p.id → Moved p q → Moved q r → Moved p r
Moved-trans id (rises up) (rises up') = rises (omega arith)
Moved-trans id (rises up) (steady s) = rises (omega (arith, s.ballot))
Moved-trans id (rises up) (foreign _ e) = rises (omega (arith, e))
Moved-trans id (steady s) (rises up) = rises (omega (arith, s.ballot))
Moved-trans id (steady s) (steady t) = steady (Steady-trans s t)
Moved-trans id (steady s) (foreign n e) =
    foreign (λ o. n (ap owner s.ballot ∙ o ∙ sym id)) (e ∙ s.ballot)
Moved-trans id (foreign n e) (rises up) = rises (omega (arith, e))
Moved-trans id (foreign n e) (steady s) = foreign n (s.ballot ∙ e)
Moved-trans id (foreign n e) (foreign _ e') = foreign n (e' ∙ e)
Moved-trans id (foreign n e) (idle _ e') = foreign n (e' ∙ e)
Moved-trans id (rises up) (idle _ e) = rises (omega (arith, e))
Moved-trans id (steady s) (idle off e) = idle (sym s.active ∙ off) (e ∙ s.ballot)
Moved-trans id (idle off e) (rises up) = rises (omega (arith, e))
Moved-trans id (idle off e) (steady s) = idle off (s.ballot ∙ e)
Moved-trans id (idle off e) (foreign _ e') = idle off (e' ∙ e)
Moved-trans id (idle off e) (idle _ e') = idle off (e' ∙ e)

pub Quiet-refl : (p : PigPaxos) → Quiet p p
Quiet-refl p = record { id = refl; silent = refl; moved = steady (Steady-refl p) }

pub Quiet-trans : {p q r : PigPaxos} → Quiet p q → Quiet q r → Quiet p r
Quiet-trans a b = record {
  id = b.id ∙ a.id;
  silent = b.silent ∙ a.silent;
  moved = Moved-trans a.id a.moved b.moved;
}

Moved-below :
    {p q : PigPaxos} → Proposing p → Moved p q → (m : P2a) → HasProposed p m → m.ballot ≤ q.ballot
Moved-below v (rises up) m k = omega (arith, v.below m k)
Moved-below v (steady s) m k = omega (arith, v.below m k, s.ballot)
Moved-below v (foreign _ e) m k = omega (arith, v.below m k, e)
Moved-below v (idle _ e) m k = omega (arith, v.below m k, e)

Moved-current :
    {p q : PigPaxos}
    → Proposing p
    → Moved p q
    → (m : P2a) → HasProposed p m
    → m.ballot ≡ q.ballot
    → (q.active ≡ true) × (m.slot < q.next_slot)
Moved-current v (rises up) m k e = absurd (omega (arith, v.below m k))
Moved-current v (steady s) m k e =
    let (on, used) = v.current m k (e ∙ s.ballot) in (s.active ∙ on, omega (arith, s.slots))
Moved-current v (foreign n same) m k e = absurd (n (ap owner (sym same ∙ sym e) ∙ v.owned m k))
Moved-current v (idle off same) m k e = let (on, _) = v.current m k (e ∙ same) in cc (sym off ∙ on)

Moved-logged :
    {p q : PigPaxos}
    → Proposing p
    → Moved p q
    → (m : P2a) (f : Entry) → HasProposed p m
    → m.ballot ≡ q.ballot
    → lookup m.slot q.log ≡ some f
    → f.commit ≡ false
    → f.command ≡ m.command
Moved-logged v (rises up) m f k e at h = absurd (omega (arith, v.below m k))
Moved-logged v (steady s) m f k e at h =
    let (g, at', h', same) = s.log m.slot f at h in same ∙ v.logged m g k (e ∙ s.ballot) at' h'
Moved-logged v (foreign n same) m f k e at h =
    absurd (n (ap owner (sym same ∙ sym e) ∙ v.owned m k))
Moved-logged v (idle off same) m f k e at h =
    let (on, _) = v.current m k (e ∙ same) in cc (sym off ∙ on)

-- A node that proposes nothing keeps the state of its proposals.
pub Quiet-Proposing : {p q : PigPaxos} → OwnsBallot q → Quiet p q → Proposing p → Proposing q
Quiet-Proposing {p} {q} leads w v = record {
  leads = leads;
  owned = λ m k. v.owned m (before m k) ∙ sym w.id;
  below = λ m k. Moved-below v w.moved m (before m k);
  current = λ m k e. Moved-current v w.moved m (before m k) e;
  logged = λ m f k e at h. Moved-logged v w.moved m f (before m k) e at h;
  once = λ m n k l. v.once m n (before m k) (before n l);
}
  where
    before : (m : P2a) → HasProposed q m → HasProposed p m
    before m k = rw w.silent at k

-- ===== src/Pig/Proposals/Speak.antt =====
-- Steps of a node that propose.
use mathlib.Core.List.{Memᴰ}
use mathlib.Core.List.Memᴰ
use pigpaxos.Prelude.{
  ℕ, ◌≤◌, ◌<◌, ◌≡◌, ◌≢◌, refl, ap, sym, ◌∙◌, List, [], ◌∷◌, ◌++◌, some, true, false, arith, inl,
  inr, ◌⊎◌, some_inj,
}
use pigpaxos.Prelude.Assoc.{lookup}
use pigpaxos.Ballot.{owner}
use pigpaxos.Pig.Msg.{P2a}
use pigpaxos.Pig.State.{Entry, PigPaxos}
use pigpaxos.Pig.Proposals.{proposals, HasProposed, Proposing}

-- `q` is a leader at the ballot of the leader `p` and has proposed one message more.
pub record Speaks (m : P2a) (p q : PigPaxos) : Type 0 where
  pub id : q.id ≡ p.id
  pub ballot : q.ballot ≡ p.ballot
  pub leader : p.active ≡ true
  pub active : q.active ≡ true
  pub said : proposals q.out ≡ proposals p.out ++ m ∷ []
  pub mine : m.ballot ≡ p.ballot
  pub slots : p.next_slot ≤ q.next_slot
  pub used : m.slot < q.next_slot
  pub agrees :
      (n : P2a) → HasProposed p n → n.ballot ≡ p.ballot → n.slot ≡ m.slot → n.command ≡ m.command
  pub log :
      (s : ℕ) (f : Entry)
      → lookup s q.log ≡ some f
      → f.commit ≡ false
      → ((s ≡ m.slot) × (f.command ≡ m.command))
        ⊎ ((s ≢ m.slot)
            × ((e : Entry) × (lookup s p.log ≡ some e)
                × (e.commit ≡ false)
                × (f.command ≡ e.command)))

pub Speaks-Proposing : {m : P2a} {p q : PigPaxos} → Speaks m p q → Proposing p → Proposing q
Speaks-Proposing {m} {p} {q} w v = record {
  leads = λ on. ap owner w.ballot ∙ v.leads w.leader ∙ sym w.id;
  owned = λ x k. said_owned x (heard x k);
  below = λ x k. said_below x (heard x k);
  current = λ x k e. said_current x (heard x k) e;
  logged = λ x f k e at h. said_logged x f (heard x k) e (w.log x.slot f at h);
  once = λ x y k l e s. said_once x y (heard x k) (heard y l) e s;
}
  where
    heard : (x : P2a) → HasProposed q x → HasProposed p x ⊎ (x ≡ m)
    heard x k = elim (Memᴰ.append_cases (proposals p.out) (rw w.said at k)) [
      | inl before ↦ inl before
      | inr last ↦ inr (Memᴰ.eq_of_singleton last)
    ]

    said_owned : (x : P2a) → HasProposed p x ⊎ (x ≡ m) → owner x.ballot ≡ q.id
    said_owned x (inl k) = v.owned x k ∙ sym w.id
    said_owned x (inr e) =
        ap (λ (t : P2a). owner t.ballot) e ∙ ap owner w.mine ∙ v.leads w.leader ∙ sym w.id

    said_below : (x : P2a) → HasProposed p x ⊎ (x ≡ m) → x.ballot ≤ q.ballot
    said_below x (inl k) = omega (arith, v.below x k, w.ballot)
    said_below x (inr e) = omega (arith, ap (λ (t : P2a). t.ballot) e, w.mine, w.ballot)

    said_current :
        (x : P2a)
        → HasProposed p x ⊎ (x ≡ m)
        → x.ballot ≡ q.ballot
        → (q.active ≡ true) × (x.slot < q.next_slot)
    said_current x (inl k) e =
        let (on, used) = v.current x k (e ∙ w.ballot) in (w.active, omega (arith, w.slots))
    said_current x (inr same) e = (w.active, omega (arith, ap (λ (t : P2a). t.slot) same, w.used))

    agreed :
        (x : P2a)
        → HasProposed p x ⊎ (x ≡ m)
        → x.ballot ≡ p.ballot
        → x.slot ≡ m.slot
        → x.command ≡ m.command
    agreed x (inl k) e s = w.agrees x k e s
    agreed x (inr same) e s = ap (λ (t : P2a). t.command) same

    said_logged :
        (x : P2a) (f : Entry)
        → HasProposed p x ⊎ (x ≡ m)
        → x.ballot ≡ q.ballot
        → ((x.slot ≡ m.slot) × (f.command ≡ m.command))
          ⊎ ((x.slot ≢ m.slot)
              × ((e : Entry) × (lookup x.slot p.log ≡ some e)
                  × (e.commit ≡ false)
                  × (f.command ≡ e.command)))
        → f.command ≡ x.command
    said_logged x f k e (inl (here, same)) = same ∙ sym (agreed x k (e ∙ w.ballot) here)
    said_logged x f (inl k) e (inr (there, (g, at, h, same))) =
        same ∙ v.logged x g k (e ∙ w.ballot) at h
    said_logged x f (inr is) e (inr (there, _)) = absurd (there (ap (λ (t : P2a). t.slot) is))

    said_once :
        (x y : P2a)
        → HasProposed p x ⊎ (x ≡ m)
        → HasProposed p y ⊎ (y ≡ m)
        → x.ballot ≡ y.ballot
        → x.slot ≡ y.slot
        → x.command ≡ y.command
    said_once x y (inl k) (inl l) e s = v.once x y k l e s
    said_once x y k (inr same) e s =
        agreed x k (e ∙ ap (λ (t : P2a). t.ballot) same ∙ w.mine)
          (s ∙ ap (λ (t : P2a). t.slot) same)
        ∙ ap (λ (t : P2a). t.command) (sym same)
    said_once x y (inr same) (inl l) e s =
        ap (λ (t : P2a). t.command) same
        ∙ sym (
            w.agrees y l (sym e ∙ ap (λ (t : P2a). t.ballot) same ∙ w.mine)
              (sym s ∙ ap (λ (t : P2a). t.slot) same))

-- `q` has become a leader at the ballot of `p`, where nothing was proposed, and has proposed the
-- messages `ms`, each with the command of an open entry of `old`.
pub record Opens (ms : List P2a) (p q : PigPaxos) : Type 0 where
  pub id : q.id ≡ p.id
  pub ballot : q.ballot ≡ p.ballot
  pub follower : p.active ≡ false
  pub mine : owner p.ballot ≡ p.id
  pub active : q.active ≡ true
  pub said : proposals q.out ≡ proposals p.out ++ ms
  pub each :
      (m : P2a)
      → Memᴰ m ms
      → (m.ballot ≡ p.ballot)
        × (m.slot < q.next_slot)
        × ((e : Entry) × (lookup m.slot p.log ≡ some e)
            × (e.commit ≡ false)
            × (m.command ≡ e.command))
  pub log :
      (s : ℕ) (f : Entry)
      → lookup s q.log ≡ some f
      → f.commit ≡ false
      → (e : Entry) × (lookup s p.log ≡ some e) × (e.commit ≡ false) × (f.command ≡ e.command)

-- Two proposals for one slot come from one entry.
same_entry :
    (log : List (ℕ × Entry)) (s t : ℕ) (e f : Entry)
    → s ≡ t
    → lookup s log ≡ some e
    → lookup t log ≡ some f
    → e.command ≡ f.command
same_entry log s t e f st at at' =
    ap (λ (x : Entry). x.command) (some_inj (sym at ∙ ap (λ (k : ℕ). lookup k log) st ∙ at'))

pub Opens-Proposing : {ms : List P2a} {p q : PigPaxos} → Opens ms p q → Proposing p → Proposing q
Opens-Proposing {ms} {p} {q} w v = record {
  leads = λ on. ap owner w.ballot ∙ w.mine ∙ sym w.id;
  owned = λ x k. said_owned x (heard x k);
  below = λ x k. said_below x (heard x k);
  current = λ x k e. (w.active, (w.each x (now x k e)).1);
  logged = λ x f k e at h. said_logged x f (now x k e) (w.log x.slot f at h);
  once = λ x y k l e s. said_once x y (heard x k) (heard y l) e s;
}
  where
    heard : (x : P2a) → HasProposed q x → HasProposed p x ⊎ Memᴰ x ms
    heard x k = Memᴰ.append_cases (proposals p.out) (rw w.said at k)

    silent : (x : P2a) → HasProposed p x → ¬ (x.ballot ≡ p.ballot)
    silent x k e = let (on, _) = v.current x k e in cc (sym w.follower ∙ on)

    now : (x : P2a) → HasProposed q x → x.ballot ≡ q.ballot → Memᴰ x ms
    now x k e = elim (heard x k) [
      | inl before ↦ absurd (silent x before (e ∙ w.ballot))
      | inr new ↦ new
    ]

    said_owned : (x : P2a) → HasProposed p x ⊎ Memᴰ x ms → owner x.ballot ≡ q.id
    said_owned x (inl k) = v.owned x k ∙ sym w.id
    said_owned x (inr k) = ap owner (w.each x k).0 ∙ w.mine ∙ sym w.id

    said_below : (x : P2a) → HasProposed p x ⊎ Memᴰ x ms → x.ballot ≤ q.ballot
    said_below x (inl k) = omega (arith, v.below x k, w.ballot)
    said_below x (inr k) = omega (arith, (w.each x k).0, w.ballot)

    said_logged :
        (x : P2a) (f : Entry)
        → Memᴰ x ms
        → (e : Entry) × (lookup x.slot p.log ≡ some e)
          × (e.commit ≡ false)
          × (f.command ≡ e.command)
        → f.command ≡ x.command
    said_logged x f k (e, at, _, same) =
        let (_, _, (g, at', _, same')) = w.each x k in
        same ∙ same_entry p.log x.slot x.slot e g refl at at' ∙ sym same'

    said_once :
        (x y : P2a)
        → HasProposed p x ⊎ Memᴰ x ms
        → HasProposed p y ⊎ Memᴰ y ms
        → x.ballot ≡ y.ballot
        → x.slot ≡ y.slot
        → x.command ≡ y.command
    said_once x y (inl k) (inl l) e s = v.once x y k l e s
    said_once x y (inl k) (inr l) e s = absurd (silent x k (e ∙ (w.each y l).0))
    said_once x y (inr k) (inl l) e s = absurd (silent y l (sym e ∙ (w.each x k).0))
    said_once x y (inr k) (inr l) e s =
        let (_, _, (g, at, _, same)) = w.each x k in
        let (_, _, (h, at', _, same')) = w.each y l in
        same ∙ same_entry p.log x.slot y.slot g h s at at' ∙ sym same'

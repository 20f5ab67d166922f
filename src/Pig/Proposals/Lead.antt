-- ===== src/Pig/Proposals/Lead.antt =====
-- The proposals of a node that becomes a leader, and those of a leader.
use mathlib.Core.List.{Memᴰ}
use mathlib.Core.List.Memᴰ
use pigpaxos.Prelude.{
  ℕ, zero, suc, ◌+◌, ◌-◌, ◌≤◌, ◌<◌, ◌≡◌, refl, ap, sym, ◌∙◌, List, [], ◌∷◌, ◌++◌, some, true, false,
  ◌==◌, ltb, arith, inl, inr, Bool-cases, Option-cases, some_inj, if_elim, if◌then◌else◌,
}
use pigpaxos.Prelude.Assoc.{lookup, insert, lookup-insert}
use pigpaxos.Ballot.{owner}
use pigpaxos.Quorum.{new_quorum, ack}
use pigpaxos.Pig.Msg.{Request, P2a}
use pigpaxos.Pig.State.{Entry, PigPaxos}
use pigpaxos.Pig.Accept.{
  no_p3, start_p2a, repropose, repropose_at, repropose_log, repropose_out, propose_all, lead,
}
use pigpaxos.Pig.Proposals.{proposals, proposals-append, Proposing}
use pigpaxos.Pig.Proposals.Quiet.{Keeps, Keeps-refl, Keeps-trans, Keeps-replace}
use pigpaxos.Pig.Proposals.Speak.{Speaks, Speaks-Proposing, Opens, Opens-Proposing}

-- the message of `repropose_out` for an entry
abbrev pub reproposal : ℕ → ℕ → ℕ → Entry → P2a
reproposal b g s e = record {
  ballot = b;
  slot = s;
  global_execute = g;
  command = e.command;
  p3msg = no_p3;
}

-- `m` repeats an open entry of the log at a slot from `s` up to `n`.
abbrev Repeats : ℕ → List (ℕ × Entry) → ℕ → ℕ → P2a → Type 0
Repeats b log s n m =
    (m.ballot ≡ b)
    × (s ≤ m.slot)
    × (m.slot < n)
    × ((e : Entry) × (lookup m.slot log ≡ some e) × (e.commit ≡ false) × (m.command ≡ e.command))

Repeats-later :
    (b s n : ℕ) (log : List (ℕ × Entry)) (m : P2a) → Repeats b log (s + 1) n m → Repeats b log s n m
Repeats-later b s n log m (ballot, from, to, entry) = (ballot, omega arith, to, entry)

repropose_out-Repeats :
    (b g s rounds n : ℕ) (log : List (ℕ × Entry)) (m : P2a)
    → s + rounds ≤ n
    → Memᴰ m (proposals (repropose_out b g log s rounds))
    → Repeats b log s n m
unfolding repropose_out
repropose_out-Repeats b g s zero n log m h k = absurd (Memᴰ.not-nil k)
repropose_out-Repeats b g s (suc rounds) n log m h k =
    let later = repropose_out-Repeats b g (s + 1) rounds n log m (omega arith) in
    elim (Option-cases (lookup s log)) [
      | inl nothing ↦ Repeats-later b s n log m (later (rw (nothing, repropose_out) at k))
      | inr (e, has) ↦ elim (Bool-cases e.commit) [
        | inl done ↦ Repeats-later b s n log m (later (rw done at (rw (has, repropose_out) at k)))
        | inr open_yet ↦ elim (Memᴰ.cases_cons (rw open_yet at (rw (has, repropose_out) at k))) [
          | inl is ↦
              let same : m ≡ reproposal b g s e = is in
              (
                ap (λ (t : P2a). t.ballot) same,
                omega (arith, ap (λ (t : P2a). t.slot) same),
                omega (arith, ap (λ (t : P2a). t.slot) same),
                (
                  e,
                  ap (λ (t : P2a). lookup t.slot log) same ∙ has,
                  open_yet,
                  ap (λ (t : P2a). t.command) same,
                ),
              )
          | inr behind ↦ Repeats-later b s n log m (later behind)
        ]
      ]
    ]

repropose_at-Keeps : (self b s : ℕ) (log : List (ℕ × Entry)) → Keeps log (repropose_at self b s log)
unfolding repropose_at
repropose_at-Keeps self b s log = elim (Option-cases (lookup s log)) [
  | inl nothing ↦ rw (nothing, repropose_at) (Keeps-refl log)
  | inr (e, has) ↦
      rw (has, repropose_at)
        (if_elim (Keeps log) e.commit log (insert s (repropose self b e) log)
          (λ done. Keeps-refl log)
          (λ open_yet. Keeps-replace s e (repropose self b e) log has refl (λ _. open_yet)))
]

repropose_log-Keeps :
    (self b s rounds : ℕ) (log : List (ℕ × Entry)) → Keeps log (repropose_log self b log s rounds)
unfolding repropose_log
repropose_log-Keeps self b s zero log = Keeps-refl log
repropose_log-Keeps self b s (suc rounds) log =
    Keeps-trans log (repropose_at self b s log) _ (repropose_at-Keeps self b s log)
      (repropose_log-Keeps self b (s + 1) rounds (repropose_at self b s log))

-- the message of `P2a` for a request
abbrev pub proposal_of : PigPaxos → Request → P2a
proposal_of p r = record {
  ballot = p.ballot;
  slot = p.next_slot;
  global_execute = p.global_execute;
  command = r.command;
  p3msg = if ltb 0 p.p3_ballot then record { ballot = p.p3_ballot; slots = p.p3_slots } else no_p3;
}

-- the entry of `P2a` for a request
abbrev new_entry : ℕ → PigPaxos → Request → Entry
new_entry now p r = record {
  ballot = p.ballot;
  command = r.command;
  commit = false;
  request = some r;
  quorum = some (ack new_quorum p.id);
  timestamp = now;
}

start_p2a-Speaks :
    (now : ℕ) (p : PigPaxos) (r : Request)
    → p.active ≡ true
    → Proposing p
    → Speaks (proposal_of p r) p (start_p2a now p r)
unfolding start_p2a
start_p2a-Speaks now p r on v = record {
  id = refl;
  ballot = refl;
  leader = on;
  active = on;
  said = proposals-append p.out _;
  mine = refl;
  slots = omega arith;
  used = omega arith;
  agrees = λ n k e s. let (_, used) = v.current n k e in absurd (omega arith);
  log = λ s f at h. elim (Bool-cases (p.next_slot == s)) [
    | inl here ↦
        let same : some (new_entry now p r) ≡ some f =
          ground (arith, lookup-insert p.next_slot s (new_entry now p r) p.log, at) in
        inl (ground arith, ap (λ (x : Entry). x.command) (sym (some_inj same)))
    | inr there ↦
        let old : lookup s p.log ≡ some f =
          ground (arith, lookup-insert p.next_slot s (new_entry now p r) p.log, at) in
        inr (λ e. absurd (ground arith), (f, old, h, refl))
  ];
}

propose_all-Proposing :
    (now : ℕ) (rs : List Request) (p : PigPaxos)
    → p.active ≡ true
    → Proposing p
    → Proposing (propose_all now rs p)
unfolding propose_all
propose_all-Proposing now [] p on v = v
propose_all-Proposing now (r ∷ rs) p on v =
    let spoken = start_p2a-Speaks now p r on v in
    propose_all-Proposing now rs (start_p2a now p r) spoken.active (Speaks-Proposing spoken v)

pub start_p2a-Proposing :
    (now : ℕ) (p : PigPaxos) (r : Request)
    → p.active ≡ true
    → Proposing p
    → Proposing (start_p2a now p r)
start_p2a-Proposing now p r on v = Speaks-Proposing (start_p2a-Speaks now p r on v) v

-- the leader before it turns to the pending requests
abbrev led : PigPaxos → PigPaxos
led p =
    let rounds = p.next_slot - p.execute in
    record p {
      active = true;
      p3_ballot = p.ballot;
      log = repropose_log p.id p.ballot p.log p.execute rounds;
      out = p.out ++ repropose_out p.ballot p.global_execute p.log p.execute rounds;
    }

led-Opens :
    (p : PigPaxos)
    → p.active ≡ false
    → owner p.ballot ≡ p.id
    → p.execute ≤ p.next_slot
    → Opens
        (proposals
          (repropose_out p.ballot p.global_execute p.log p.execute (p.next_slot - p.execute)))
        p
        (led p)
led-Opens p follows mine h = record {
  id = refl;
  ballot = refl;
  follower = follows;
  mine = mine;
  active = refl;
  said = proposals-append p.out _;
  each = λ m k.
      let (ballot, _, to, entry) =
        repropose_out-Repeats p.ballot p.global_execute p.execute (p.next_slot - p.execute)
          p.next_slot p.log m (omega arith) k in
      (ballot, to, entry);
  log = repropose_log-Keeps p.id p.ballot p.execute (p.next_slot - p.execute) p.log;
}

pub lead-Proposing :
    (now : ℕ) (p : PigPaxos)
    → p.active ≡ false
    → owner p.ballot ≡ p.id
    → p.execute ≤ p.next_slot
    → Proposing p
    → Proposing (lead now p)
unfolding lead
lead-Proposing now p follows mine h v =
    let w =
      propose_all-Proposing now p.requests (led p) refl
        (Opens-Proposing (led-Opens p follows mine h) v) in
    record {
      leads = w.leads;
      owned = w.owned;
      below = w.below;
      current = w.current;
      logged = w.logged;
      once = w.once;
    }

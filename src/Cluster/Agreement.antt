-- ===== src/Cluster/Agreement.antt =====
-- Under one ballot the nodes agree on the command of a slot.
use mathlib.Core.List.{Memᴰ}
use pigpaxos.Prelude.{
  ℕ, ◌+◌, ◌^◌, ◌≤◌, ◌<◌, ◌≡◌, ◌≢◌, refl, ap, sym, ◌∙◌, List, [], ◌∷◌, some, Bool, false, ◌==◌,
  arith, inl, inr, Bool-cases, ltb,
}
use pigpaxos.Prelude.Assoc.{lookup, lookup-nil}
use pigpaxos.Ballot.{number, owner}
use pigpaxos.Config.{Config}
use pigpaxos.Db.{Command}
use pigpaxos.Pig.Msg
use pigpaxos.Pig.Msg.{P2a, CommandBallot}
use pigpaxos.Pig.State.{Entry, Out, broadcast, PigPaxos, new_pig_paxos}
use pigpaxos.Pig.Step.{Event, handle}
use pigpaxos.Pig.Run.{Run, IsDelivered}
use pigpaxos.Pig.Proposals.{HasProposed, proposal, proposals}
use pigpaxos.Id.{new_id}
use mathlib.Core.List.Memᴰ.{append_right, not-nil}
use mathlib.Core.Path.{subst}
use pigpaxos.Pig.Proposals.Once.{Run-Sound}
use pigpaxos.Pig.Invariant.Logs.{ReportsBelow}
use pigpaxos.Pig.Backed.{Backed, ReportsBacked, OutsBacked-Mem}
use pigpaxos.Pig.Backed.Calls.{EventBacked, handle-Backed, Backed-mono, EventBacked-mono}
use pigpaxos.Pig.Kept.{handle-HasProposed}
use pigpaxos.Cluster.{Nodes, put, Receives, Cluster, begin, step}

-- The owner of the ballot has proposed the command for the slot under it.
abbrev Proposed : Nodes → ℕ → ℕ → Command → Type 0
Proposed nodes b s c =
    (m : P2a) × HasProposed (nodes (owner b)) m × (m.ballot ≡ b) × (m.slot ≡ s) × (m.command ≡ c)

-- What holds of the nodes at every moment.
record Sane (c : Config) (multiversion : Bool) (nodes : Nodes) : Type 0 where
  runs : (i : ℕ) → i < 2 ^ 32 → Run c i multiversion (nodes i)
  silent : (i : ℕ) → 2 ^ 32 ≤ i → nodes i ≡ new_pig_paxos i multiversion
  backed : (i : ℕ) → Backed (Proposed nodes) (nodes i)

HasProposed-Mem :
    (m : P2a) (os : List Out) → Memᴰ (broadcast (Msg.accept m)) os → Memᴰ m (proposals os)
HasProposed-Mem m [] k = elim k [ ]
HasProposed-Mem m (o ∷ os) (Memᴰ.head e) = rw (← e) (Memᴰ.head refl)
HasProposed-Mem m (o ∷ os) (Memᴰ.tail k) = append_right (proposal o) (HasProposed-Mem m os k)

owner-below : (b : ℕ) → owner b < 2 ^ 32
unfolding owner new_id
owner-below b = omega arith

ReportsBacked-ReportsBelow :
    (B : ℕ → ℕ → Command → Type 0) (b : ℕ) (log : List (ℕ × CommandBallot))
    → ReportsBacked B b log
    → ReportsBelow b log
ReportsBacked-ReportsBelow B b [] h = tt
ReportsBacked-ReportsBelow B b ((s, cb) ∷ log) h = (h.0.0, ReportsBacked-ReportsBelow B b log h.1)

module _ {c : Config} {multiversion : Bool} {nodes : Nodes} (v : Sane c multiversion nodes) where
  id-nodes : (i : ℕ) → (nodes i).id ≡ i
  id-nodes i = elim (Bool-cases (ltb i (2 ^ 32))) [
    | inl small ↦ (Run-Sound (ground arith) (v.runs i (ground arith))).same
    | inr large ↦ ap (λ (p : PigPaxos). p.id) (v.silent i (ground arith))
  ]

  -- A proposal stands under a ballot of the node that has broadcast it.
  owner-proposed : (m : P2a) (j : ℕ) → HasProposed (nodes j) m → owner m.ballot ≡ j
  owner-proposed m j k = elim (Bool-cases (ltb j (2 ^ 32))) [
    | inl small ↦
        (Run-Sound (ground arith) (v.runs j (ground arith))).proposing.owned m k ∙ id-nodes j
    | inr large ↦
        absurd (not-nil (subst (λ (p : PigPaxos). HasProposed p m) (v.silent j (ground arith)) k))
  ]

  Receives-IsDelivered : (i : ℕ) (e : Event) → Receives nodes i e → IsDelivered (nodes i) e
  Receives-IsDelivered i e (Receives.request now r) = tt
  Receives-IsDelivered i e (Receives.prepare m j _ _) = tt
  Receives-IsDelivered i e (Receives.promise now m j to k) =
      ReportsBacked-ReportsBelow _ m.ballot m.log (OutsBacked-Mem _ k (v.backed j).out)
  Receives-IsDelivered i e (Receives.accept m j k other) =
      λ same. other (sym (owner-proposed m j (HasProposed-Mem m _ k)) ∙ same ∙ id-nodes i)
  Receives-IsDelivered i e (Receives.accepted now slot b ids _) = tt
  Receives-IsDelivered i e (Receives.committed m j _) = tt
  Receives-IsDelivered i e (Receives.recover_request m j _) = tt
  Receives-IsDelivered i e (Receives.recover_reply m j _) = tt
  Receives-IsDelivered i e (Receives.timeout t now) = tt
  Receives-IsDelivered i e (Receives.executed id last) = tt
  Receives-IsDelivered i e Receives.cleanup = tt

  -- What the messages bring has been proposed.
  Receives-EventBacked : (i : ℕ) (e : Event) → Receives nodes i e → EventBacked (Proposed nodes) e
  Receives-EventBacked i e (Receives.request now r) = tt
  Receives-EventBacked i e (Receives.prepare m j _ _) = tt
  Receives-EventBacked i e (Receives.promise now m j to k) = OutsBacked-Mem _ k (v.backed j).out
  Receives-EventBacked i e (Receives.accept m j k other) =
      let has = HasProposed-Mem m _ k in
      λ nz. (
        m,
        subst (λ (x : ℕ). HasProposed (nodes x) m) (sym (owner-proposed m j has)) has,
        refl,
        refl,
        refl,
      )
  Receives-EventBacked i e (Receives.accepted now slot b ids _) = tt
  Receives-EventBacked i e (Receives.committed m j _) = tt
  Receives-EventBacked i e (Receives.recover_request m j _) = tt
  Receives-EventBacked i e (Receives.recover_reply m j k) = OutsBacked-Mem _ k (v.backed j).out
  Receives-EventBacked i e (Receives.timeout t now) = tt
  Receives-EventBacked i e (Receives.executed id last) = tt
  Receives-EventBacked i e Receives.cleanup = tt

begin-Sane :
    (c : Config) (multiversion : Bool) → Sane c multiversion (λ i. new_pig_paxos i multiversion)
begin-Sane c multiversion = record {
  runs = λ i h. Run.start;
  silent = λ i h. refl;
  backed = λ i. record { log = λ s e at. cc (lookup-nil {V = Entry} s); out = tt };
}

put_here : (i : ℕ) (p : PigPaxos) (nodes : Nodes) → put i p nodes i ≡ p
unfolding put
put_here i p nodes = ground arith

put_there : (i j : ℕ) (p : PigPaxos) (nodes : Nodes) → (i == j) ≡ false → put i p nodes j ≡ nodes j
unfolding put
put_there i j p nodes h = rw h refl

-- A property of the nodes outlasts a step when the new node has it.
put_each :
    (P : ℕ → PigPaxos → Type 0) (i : ℕ) (q : PigPaxos) (nodes : Nodes)
    → P i q
    → ((j : ℕ) → P j (nodes j))
    → (j : ℕ) → P j (put i q nodes j)
put_each P i q nodes h k j = elim (Bool-cases (i == j)) [
  | inl same ↦
      let slot : i ≡ j = ground arith in
      subst (λ (x : ℕ). P x (put i q nodes x)) slot (subst (P i) (sym (put_here i q nodes)) h)
  | inr other ↦ subst (P j) (sym (put_there i j q nodes other)) (k j)
]

step-Sane :
    {c : Config} {multiversion : Bool} {nodes : Nodes} {q : PigPaxos}
    → (i : ℕ) → i < 2 ^ 32
    → (e : Event) → Receives nodes i e
    → number (nodes i).ballot + 1 < 2 ^ 32
    → handle c e (nodes i) ≡ some q
    → Sane c multiversion nodes
    → Sane c multiversion (put i q nodes)
step-Sane {c} {multiversion} {nodes} {q} i small e call h eq v =
    let id : (nodes i).id < 2 ^ 32 = omega (arith, id-nodes v i) in
    let delivered = Receives-IsDelivered v i e call in
    let run : Run c i multiversion q = Run.next (v.runs i small) e h delivered eq in
    let sound = Run-Sound small run in
    let later : (j : ℕ) (m : P2a) → HasProposed (nodes j) m → HasProposed (put i q nodes j) m =
      λ j m.
        put_each (λ (x : ℕ) (p : PigPaxos). HasProposed (nodes x) m → HasProposed p m) i q nodes
          (handle-HasProposed c e (nodes i) q m h id delivered eq) (λ x k. k) j in
    let wider : (b s : ℕ) (d : Command) → Proposed nodes b s d → Proposed (put i q nodes) b s d =
      λ b s d k. (k.0, later (owner b) k.0 k.1, k.2, k.3, k.4) in
    record {
      runs =
          put_each (λ (x : ℕ) (p : PigPaxos). x < 2 ^ 32 → Run c x multiversion p) i q nodes
            (λ _. run) v.runs;
      silent =
          put_each (λ (x : ℕ) (p : PigPaxos). 2 ^ 32 ≤ x → p ≡ new_pig_paxos x multiversion) i q
            nodes (λ large. absurd (omega arith)) v.silent;
      backed =
          put_each (λ (x : ℕ) (p : PigPaxos). Backed (Proposed (put i q nodes)) p) i q nodes
            (handle-Backed _ c e (nodes i) q (Run-Sound small (v.runs i small)).valid
              (EventBacked-mono wider e (Receives-EventBacked v i e call)) eq
              (λ m k. (
                m,
                subst (λ (x : ℕ). HasProposed (put i q nodes x) m)
                    (sym (sound.proposing.owned m k ∙ sound.same))
                    (subst (λ (p : PigPaxos). HasProposed p m) (sym (put_here i q nodes)) k),
                refl,
                refl,
                refl,
              ))
              (Backed-mono wider (v.backed i)))
            (λ x. Backed-mono wider (v.backed x));
    }

Cluster-Sane :
    {c : Config} {multiversion : Bool} {nodes : Nodes}
    → Cluster c multiversion nodes
    → Sane c multiversion nodes
Cluster-Sane {c} {multiversion} begin = begin-Sane c multiversion
Cluster-Sane (step before i small e call h eq) = step-Sane i small e call h eq (Cluster-Sane before)

-- In every state of a cluster, whatever messages were lost, repeated or reordered and while the ballot
-- numbers last, two nodes whose logs hold entries for one slot under the same ballot, which is not 0,
-- hold the same command there; and the owner of the ballot has proposed it for the slot under it.
pub agreement_in_a_ballot :
    (c : Config) (multiversion : Bool) (nodes : Nodes) (i j s : ℕ) (e f : Entry)
    → Cluster c multiversion nodes
    → lookup s (nodes i).log ≡ some e
    → lookup s (nodes j).log ≡ some f
    → e.ballot ≡ f.ballot
    → e.ballot ≢ 0
    → (e.command ≡ f.command)
      × ((m : P2a) × HasProposed (nodes (owner e.ballot)) m
          × (m.ballot ≡ e.ballot)
          × (m.slot ≡ s)
          × (m.command ≡ e.command))
agreement_in_a_ballot c multiversion nodes i j s e f cluster at there same nz =
    let v = Cluster-Sane cluster in
    let (m, k, ballot, slot, command) = (v.backed i).log s e at nz in
    let (n, l, ballot', slot', command') = (v.backed j).log s f there (λ z. nz (same ∙ z)) in
    let sound = Run-Sound (owner-below e.ballot) (v.runs (owner e.ballot) (owner-below e.ballot)) in
    (
      sym command
          ∙ sound.proposing.once m n k
              (subst (λ (b : ℕ). HasProposed (nodes (owner b)) n) (sym same) l)
              (ballot ∙ same ∙ sym ballot') (slot ∙ sym slot')
          ∙ command',
      (m, k, ballot, slot, command),
    )

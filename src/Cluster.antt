-- ===== src/Cluster.antt =====
-- Several nodes of pigpaxos/pigpaxos.go and the network between them. A message that a node has
-- sent stays in its `out`: it may arrive later, more than once, or never. A relay passes promises and
-- votes on: they arrive whatever node they were sent to, and votes arrive in any collection.
pub mod Agreement
mod Disagreement
mod Tests
use mathlib.Core.List.{Memᴰ}
use pigpaxos.Prelude.{ℕ, ◌+◌, ◌^◌, ◌<◌, ◌≡◌, ◌≢◌, [], ◌∷◌, List, some, Bool, ◌==◌, if◌then◌else◌}
use pigpaxos.Ballot.{number}
use pigpaxos.Config.{Config}
use pigpaxos.Pig.Msg
use pigpaxos.Pig.Msg.{Request, P1a, P1b, P2a, P3, P3RecoverRequest, P3RecoverReply}
use pigpaxos.Pig.State.{Out, broadcast, send, PigPaxos, new_pig_paxos}
use pigpaxos.Pig.Step
use pigpaxos.Pig.Step.{Event, handle}

-- The node of each identity.
abbrev pub Nodes : Type 0
Nodes = ℕ → PigPaxos

unfoldable pub put : ℕ → PigPaxos → Nodes → Nodes
put i p nodes j = if i == j then p else nodes j

-- The calls that the nodes, their clients and their clocks bring about at the node `i`.
pub data Receives (nodes : Nodes) (i : ℕ) : Event → Type 0 where
  request : (now : ℕ) (r : Request) → Receives nodes i (Step.request now r)
  prepare :
      (m : P1a) (j : ℕ)
      → Memᴰ (broadcast (Msg.prepare m)) (nodes j).out
      → j ≢ i
      → Receives nodes i (Step.prepare m j)
  promise :
      (now : ℕ) (m : P1b) (j to : ℕ)
      → Memᴰ (send to (Msg.promise m)) (nodes j).out
      → Receives nodes i (Step.promise now m)
  accept :
      (m : P2a) (j : ℕ)
      → Memᴰ (broadcast (Msg.accept m)) (nodes j).out
      → j ≢ i
      → Receives nodes i (Step.accept m j)
  accepted :
      (now slot ballot : ℕ) (ids : List ℕ)
      → ((j : ℕ)
          → Memᴰ j ids
          → (to : ℕ) × Memᴰ
              (send to (Msg.accepted (record { ballot = ballot; slot = slot; ids = j ∷ [] })))
              (nodes j).out)
      → Receives nodes i (Step.accepted now slot ballot ids)
  committed :
      (m : P3) (j : ℕ)
      → Memᴰ (broadcast (Msg.committed m)) (nodes j).out
      → Receives nodes i (Step.committed m)
  recover_request :
      (m : P3RecoverRequest) (j : ℕ)
      → Memᴰ (send i (Msg.recover_request m)) (nodes j).out
      → Receives nodes i (Step.recover_request m)
  recover_reply :
      (m : P3RecoverReply) (j : ℕ)
      → Memᴰ (send i (Msg.recover_reply m)) (nodes j).out
      → Receives nodes i (Step.recover_reply m)
  timeout : (cutoff now : ℕ) → Receives nodes i (Step.timeout cutoff now)
  executed : (id last : ℕ) → Receives nodes i (Step.executed id last)
  cleanup : Receives nodes i Step.cleanup

-- The states that nodes which all start anew can be in, while their ballot numbers last.
pub data Cluster (c : Config) (multiversion : Bool) : Nodes → Type 0 where
  begin : Cluster c multiversion (λ i. new_pig_paxos i multiversion)
  step :
      {nodes : Nodes} {q : PigPaxos}
      → Cluster c multiversion nodes
      → (i : ℕ) → i < 2 ^ 32
      → (e : Event) → Receives nodes i e
      → number (nodes i).ballot + 1 < 2 ^ 32
      → handle c e (nodes i) ≡ some q
      → Cluster c multiversion (put i q nodes)

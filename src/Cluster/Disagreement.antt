-- ===== src/Cluster/Disagreement.antt =====
-- Two nodes that commit different commands at one slot: a promise reports nothing of a slot that is
-- committed, and a vote for a committed slot goes out whatever command the proposal carries.
use mathlib.Core.List.{Memᴰ}
use pigpaxos.Prelude.{ℕ, ◌≡◌, ◌≢◌, refl, [], ◌∷◌, none, some, false, arith}
use pigpaxos.Prelude.Assoc.{lookup, insert, erase, increment}
use pigpaxos.Id.{zone_of, node_of, new_id}
use pigpaxos.Ballot.{owner, number, next, new_ballot}
use pigpaxos.Quorum.{majority, ack}
use pigpaxos.Quorum.Valid.{ack_all}
use pigpaxos.Config.{Config}
use pigpaxos.Pig.Exec.{exec, exec_loop, execute_entry, ask_recovery}
use pigpaxos.Pig.Prepare.{start_p1a, retry_p1a, uncommitted, adopt, handle_p1a, update}
use pigpaxos.Pig.Accept.{
  start_p2a, retry_p2a, handle_request, repropose_at, repropose_log, repropose_out, propose_all,
  lead, count_promise, merge_promise, handle_p1b, accept_p2a, vote_p2a, step_down, after_commit,
  commit_entry, count_votes, handle_p2b,
}
use pigpaxos.Pig.Commit.{commit_slots, handle_p3, handle_p2a}
use pigpaxos.Pig.Maintain.{retry_slot, retry, check_timeout}
use pigpaxos.Pig.Msg
use pigpaxos.Pig.Msg.{Request, P1b, P2a, P3}
use pigpaxos.Pig.State.{send, PigPaxos, new_pig_paxos, forward_requests}
use pigpaxos.Pig.Step
use pigpaxos.Pig.Step.{Event, handle}
use pigpaxos.Pig.Lasting.{Chosen}
use pigpaxos.Cluster.{Nodes, put, Receives, Cluster, begin, step}

-- the nodes 1.1, 1.2 and 1.3
abbrev pub three : Config
three = record { n = 3; z = 1; npz = (1, 3) ∷ []; use_retro_log = false }

abbrev pub a : ℕ
a = 65537

abbrev pub b : ℕ
b = 65538

abbrev pub c : ℕ
c = 65539

-- the first ballots of the nodes 1.1 and 1.3
abbrev pub ballot_a : ℕ
ballot_a = 4_295_032_833

abbrev pub ballot_c : ℕ
ballot_c = 4_295_032_835

unfoldable pub after : Event → PigPaxos → PigPaxos
unfolding handle handle_request handle_p1a handle_p1b handle_p2a handle_p2b handle_p3 check_timeout
    start_p1a start_p2a merge_promise count_promise lead update majority forward_requests
    repropose_log repropose_out repropose_at propose_all count_votes step_down commit_entry
    after_commit exec exec_loop execute_entry ask_recovery adopt uncommitted vote_p2a accept_p2a
    commit_slots retry retry_slot retry_p2a retry_p1a ack zone_of node_of new_id owner number next
    new_ballot lookup insert erase increment ack_all
after e p = elim (handle three e p) [ none ↦ p | some q ↦ q ]

abbrev proposal_for : ℕ → Request → P2a
proposal_for ballot r = record {
  ballot = ballot;
  slot = 0;
  global_execute = 0;
  command = r.command;
  p3msg = record { ballot = ballot; slots = [] };
}

abbrev promise_for : ℕ → P1b
promise_for ballot = record { id = b; ballot = ballot; log = [] }

abbrev commit_of : P3
commit_of = record { ballot = ballot_a; slots = 0 ∷ [] }

distinct_ab : a ≢ b
distinct_ab = omega arith

distinct_cb : c ≢ b
distinct_cb = omega arith

-- A vote of the node 1.2 alone.
only_b :
    (ballot to : ℕ) (nodes : Nodes)
    → Memᴰ
        (send to (Msg.accepted (record { ballot = ballot; slot = 0; ids = b ∷ [] })))
        (nodes b).out
    → (j : ℕ) → Memᴰ j (b ∷ [])
    → (to : ℕ) × Memᴰ
        (send to (Msg.accepted (record { ballot = ballot; slot = 0; ids = j ∷ [] })))
        (nodes j).out
only_b ballot to nodes k j (Memᴰ.head e) = rw e (to, k)
only_b ballot to nodes k j (Memᴰ.tail h) = elim h [ ]

-- The requests that the nodes 1.1 and 1.3 get.
module _ (v w : Request) where
  abbrev asked : PigPaxos
  asked = after (Step.request 1_000_000 v) (new_pig_paxos a false)

  abbrev promised : PigPaxos
  promised = after (Step.prepare (record { ballot = ballot_a }) a) (new_pig_paxos b false)

  abbrev leads : PigPaxos
  leads = after (Step.promise 2_000_000 (promise_for ballot_a)) (asked)

  abbrev voted : PigPaxos
  voted = after (Step.accept (proposal_for ballot_a v) a) (promised)

  abbrev committed : PigPaxos
  committed = after (Step.accepted 3_000_000 0 ballot_a (b ∷ [])) (leads)

  abbrev announced : PigPaxos
  announced = after (Step.timeout 0 20_000_000) (committed)

  abbrev learned : PigPaxos
  learned = after (Step.committed commit_of) (voted)

  abbrev asked_too : PigPaxos
  asked_too = after (Step.request 30_000_000 w) (new_pig_paxos c false)

  abbrev promised_too : PigPaxos
  promised_too = after (Step.prepare (record { ballot = ballot_c }) c) (learned)

  abbrev leads_too : PigPaxos
  leads_too = after (Step.promise 31_000_000 (promise_for ballot_c)) (asked_too)

  abbrev voted_too : PigPaxos
  voted_too = after (Step.accept (proposal_for ballot_c w) c) (promised_too)

  abbrev committed_too : PigPaxos
  committed_too = after (Step.accepted 32_000_000 0 ballot_c (b ∷ [])) (leads_too)

  abbrev at_start : Nodes
  at_start = λ i. new_pig_paxos i false

  abbrev after_asked : Nodes
  after_asked = put a asked at_start

  asked_run : Cluster three false after_asked
  unfolding after put
  asked_run =
      step begin a (omega arith) (Step.request 1_000_000 v) (Receives.request 1_000_000 v)
        (omega arith) refl

  abbrev after_promised : Nodes
  after_promised = put b promised after_asked

  promised_run : Cluster three false after_promised
  unfolding after put
  promised_run =
      step asked_run b (omega arith) (Step.prepare (record { ballot = ballot_a }) a)
        (Receives.prepare (record { ballot = ballot_a }) a (Memᴰ.head refl) distinct_ab)
        (omega arith) refl

  abbrev after_leads : Nodes
  after_leads = put a leads after_promised

  leads_run : Cluster three false after_leads
  unfolding after put
  leads_run =
      step promised_run a (omega arith) (Step.promise 2_000_000 (promise_for ballot_a))
        (Receives.promise 2_000_000 (promise_for ballot_a) b a (Memᴰ.head refl)) (omega arith) refl

  abbrev after_voted : Nodes
  after_voted = put b voted after_leads

  voted_run : Cluster three false after_voted
  unfolding after put
  voted_run =
      step leads_run b (omega arith) (Step.accept (proposal_for ballot_a v) a)
        (Receives.accept (proposal_for ballot_a v) a (Memᴰ.tail (Memᴰ.head refl)) distinct_ab)
        (omega arith) refl

  abbrev after_committed : Nodes
  after_committed = put a committed after_voted

  committed_run : Cluster three false after_committed
  unfolding after put
  committed_run =
      step voted_run a (omega arith) (Step.accepted 3_000_000 0 ballot_a (b ∷ []))
        (Receives.accepted 3_000_000 0 ballot_a (b ∷ [])
          (only_b ballot_a a after_voted (Memᴰ.tail (Memᴰ.head refl))))
        (omega arith) refl

  abbrev after_announced : Nodes
  after_announced = put a announced after_committed

  announced_run : Cluster three false after_announced
  unfolding after put
  announced_run =
      step committed_run a (omega arith) (Step.timeout 0 20_000_000) (Receives.timeout 0 20_000_000)
        (omega arith) refl

  abbrev after_learned : Nodes
  after_learned = put b learned after_announced

  learned_run : Cluster three false after_learned
  unfolding after put
  learned_run =
      step announced_run b (omega arith) (Step.committed commit_of)
        (Receives.committed commit_of a (Memᴰ.tail (Memᴰ.tail (Memᴰ.tail (Memᴰ.head refl)))))
        (omega arith) refl

  abbrev after_asked_too : Nodes
  after_asked_too = put c asked_too after_learned

  asked_too_run : Cluster three false after_asked_too
  unfolding after put
  asked_too_run =
      step learned_run c (omega arith) (Step.request 30_000_000 w) (Receives.request 30_000_000 w)
        (omega arith) refl

  abbrev after_promised_too : Nodes
  after_promised_too = put b promised_too after_asked_too

  promised_too_run : Cluster three false after_promised_too
  unfolding after put
  promised_too_run =
      step asked_too_run b (omega arith) (Step.prepare (record { ballot = ballot_c }) c)
        (Receives.prepare (record { ballot = ballot_c }) c (Memᴰ.head refl) distinct_cb)
        (omega arith) refl

  abbrev after_leads_too : Nodes
  after_leads_too = put c leads_too after_promised_too

  leads_too_run : Cluster three false after_leads_too
  unfolding after put
  leads_too_run =
      step promised_too_run c (omega arith) (Step.promise 31_000_000 (promise_for ballot_c))
        (Receives.promise 31_000_000 (promise_for ballot_c) b c
          (Memᴰ.tail (Memᴰ.tail (Memᴰ.head refl))))
        (omega arith) refl

  abbrev after_voted_too : Nodes
  after_voted_too = put b voted_too after_leads_too

  voted_too_run : Cluster three false after_voted_too
  unfolding after put
  voted_too_run =
      step leads_too_run b (omega arith) (Step.accept (proposal_for ballot_c w) c)
        (Receives.accept (proposal_for ballot_c w) c (Memᴰ.tail (Memᴰ.head refl)) distinct_cb)
        (omega arith) refl

  abbrev pub after_committed_too : Nodes
  after_committed_too = put c committed_too after_voted_too

  pub committed_too_run : Cluster three false after_committed_too
  unfolding after put
  committed_too_run =
      step voted_too_run c (omega arith) (Step.accepted 32_000_000 0 ballot_c (b ∷ []))
        (Receives.accepted 32_000_000 0 ballot_c (b ∷ [])
          (only_b ballot_c c after_voted_too (Memᴰ.tail (Memᴰ.tail (Memᴰ.tail (Memᴰ.head refl))))))
        (omega arith) refl

-- For any two requests there is a run of three nodes, over messages that they have sent, in which one
-- node commits and executes the command of the first request at slot 0 and another node commits and
-- executes the command of the second request at slot 0.
pub disagreement :
    (v w : Request)
    → (nodes : Nodes) × Cluster three false nodes
      × Chosen 0 ballot_a v.command (nodes a).log
      × Chosen 0 ballot_c w.command (nodes c).log
      × ((nodes a).execute ≡ 1)
      × ((nodes c).execute ≡ 1)
unfolding after put
disagreement v w = (
  after_committed_too v w,
  committed_too_run v w,
  (_, refl, refl, refl, refl),
  (_, refl, refl, refl, refl),
  refl,
  refl,
)

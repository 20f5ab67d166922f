-- ===== src/Lib.antt =====
-- PigPaxos and the paxi framework below it.
--
-- A PigPaxos node keeps a log of slots, a ballot and a database. A client request starts phase 1 or,
-- at a leader, phase 2 for a new slot; a slot that a majority has voted for is committed and the node
-- runs committed slots in their order on its database. Messages between nodes go through a relay
-- layer that collects the votes of a peer group.
--
--   id.go                  Id: identities as 32-bit words (zone, node); less is `Less`, compare_id
--                          is `compareID`
--   ballot.go              Ballot: ballots as 64-bit words (number, identity)
--   config.go              Config: the counts that `Load` makes of the configured nodes
--   quorum.go              Quorum: the vote counter and all its quorum tests
--   db.go                  Db: commands, the database and the tests for conflicts
--   pigpaxos/msg.go        Pig.Msg
--   pigpaxos/pigpaxos.go   Pig: State (the record `PigPaxos`), Exec (`exec`), Prepare (phase 1),
--                          Accept (phase 2), Commit (phase 3 and recovery), Maintain (timers and log
--                          cleanup), Step (one event per call of a handler); on these stand Running
--                          (what exec runs), Invariant, Ballots, Promises, Durable, Run (a node from
--                          its start), Proposals (what it proposes), Lasting (committed slots),
--                          Progress (what gets answered) and Backed (where commands come from)
--                          Cluster: many nodes, and the messages that they have sent
--   paxos/paxos.go         Paxos: State, Exec, Accept (requests, phases 1 and 2), Commit (phase 3 and
--                          recovery), Maintain (timed calls), Running (what exec runs),
--                          Unseen (a slot committed before its P2a); the text that
--                          it shares with pigpaxos/pigpaxos.go is taken from Pig
--   pigpaxos/replica.go    Relay: Groups (`peersToGroups`, the missing identities), State (`Replica`,
--                          `RoutedMsg`), Collect (replies on their way back), Route (messages on their
--                          way to a peer group, and timeouts), Start (`NewReplica`, `startTicker`)
--   hlc/                   Hlc: the hybrid logical clock
--   lib/queue.go           Collections.Queue: the circular buffer
--   lib/set.go, graph.go   Collections.Set and Collections.Graph, with both breadth-first searches
--   policy.go              Policy: the consecutive policy
--
-- Prelude holds tests on numbers, lists, association lists for maps, and counting; Words holds shifts
-- and the bit operations of Go's unsigned words.
--
-- A handler is a function from a node to a node: it runs under the locks of the source as one step.
-- What it sends, forwards, answers and writes to the retroscope log is appended to the field `out`, in
-- the order of the calls; a goroutine that only sends counts as sending at once. A panic is `none`.
-- Each handler takes one reading of the clock. The slot counter of the source starts at -1 and the
-- model keeps it plus one (`next_slot`), and so the cleanup markers. A map is an association list;
-- loops over maps run in the order of that list.
--
-- The loops of `exec`, of both protocols, run on fuel, the number of slots between the execution point
-- and the slot counter, plus one: a round runs one slot below the slot counter, so that the loop meets
-- its break before the fuel ends while every slot of the log lies below the slot counter.
--
-- A cluster is a function from identities to nodes. Each step is one call at one node; a message may be
-- any that some node has sent, at any later time, any number of times. The relay layer is not part of
-- it: a promise may arrive at any node, and votes in any collection of votes that were sent.
--
-- The breadth-first searches run on fuel, the number of vertices and one: a round moves one vertex to
-- the result, where none stands twice. Vertices are numbers, and a loop over a Go map runs in the order
-- of a list. A queue is over any type, with a value for the nil that fills a new buffer.
--
-- In the relay layer a message to the node itself is queued in `sent` like any other, where the source
-- calls its handler at once. The relays of a broadcast are chosen at random and are not modelled, nor
-- is the list of nodes whose connection has failed, but for the test that it makes.
--
-- Not modelled: sockets, HTTP, codecs and logging (input and output); text formats of identities and
-- ballots; the clients and the benchmark; the search for cycles, the strongly connected
-- components, the hash ring and the maps with locks of lib; the majority policy and the moving average
-- of policy.go; the linearizability checker; the replica and the client of paxos; the other protocols
-- of the repository (epaxos, layerpaxos, chainpaxos); and the transactions and reads outside the log.
mod Prelude
pub mod Words
pub mod Id
pub mod Ballot
pub mod Config
pub mod Quorum
pub mod Db
pub mod Pig
pub mod Cluster
pub mod Paxos
pub mod Relay
pub mod Hlc
pub mod Collections
pub mod Policy

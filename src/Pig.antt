-- ===== src/Pig.antt =====
-- pigpaxos/pigpaxos.go: one PigPaxos node below the relay layer.
pub mod Msg
pub mod State
pub mod Exec
pub mod Prepare
pub mod Accept
pub mod Commit
pub mod Maintain
pub mod Step
pub mod Frame
pub mod Votes
pub mod Running
pub mod Invariant
pub mod Promises
pub mod Durable
pub mod Run
pub mod Progress
pub mod Lasting
pub mod Kept
pub mod Backed
pub mod Proposals
mod Tests
pub mod Ballots

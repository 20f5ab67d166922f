-- ===== src/Paxos.antt =====
-- paxos/paxos.go: the Multi-Paxos that PigPaxos extends. Its entries, its promises and the loops over
-- the log in `HandleP1a`, `update` and `HandleP1b` are those of pigpaxos/pigpaxos.go, and so are the
-- definitions.
pub mod State
pub mod Exec
pub mod Accept
pub mod Commit
pub mod Maintain
pub mod Running
pub mod Unseen
mod Tests

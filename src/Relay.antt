-- ===== src/Relay.antt =====
-- pigpaxos/replica.go: the relay layer of a PigPaxos replica.
pub mod Groups
pub mod State
pub mod Collect
pub mod Route
pub mod Start
pub mod Numbers
mod Tests

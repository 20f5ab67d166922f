-- ===== src/Pig/Invariant.antt =====
-- The invariant of a node, kept by every call.
pub mod Logs
pub mod Calls
pub mod Runs

-- ===== src/Collections.antt =====
-- lib/: the containers that the server and the checker use.
pub mod Queue
pub mod Set
pub mod Graph

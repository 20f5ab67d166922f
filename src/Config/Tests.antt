-- ===== src/Config/Tests.antt =====
-- A configuration of four nodes in two zones.
use pigpaxos.Prelude.{ℕ, List, [], ◌∷◌, true}
use pigpaxos.Config.{load}
use pigpaxos.Config.Load.{Describes, load-Describes}

-- Nodes 1.1, 1.2, 2.1 and 2.2.
abbrev nodes : List ℕ
nodes = 65537 ∷ 65538 ∷ 131073 ∷ 131074 ∷ []

load-Describes_example : Describes nodes (load nodes true)
load-Describes_example = load-Describes nodes true

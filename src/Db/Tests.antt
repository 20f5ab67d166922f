-- ===== src/Db/Tests.antt =====
-- Databases after concrete commands.
use pigpaxos.Prelude.{ℕ, ◌+◌, ◌≡◌, ◌↔◌, refl, List, [], ◌∷◌, ◌++◌, none, some, true}
use pigpaxos.Db.{Command, Value, new_database, get, history, run, equal, bytes, conflict_batch}
use pigpaxos.Db.View.{writes, write_count, last_or, run_lem}
use pigpaxos.Db.Conflict.{SameView, batches_commute}
use pigpaxos.Db.Equal.{equal_iff}

abbrev command : ℕ → Value → Command
command k v = record { key = k; value = v; client_id = 65537; command_id = 1 }

abbrev batch : List Command
batch = command 1 (some (7 ∷ [])) ∷ command 2 none ∷ command 1 (some (8 ∷ [])) ∷ []

abbrev other : List Command
other = command 2 none ∷ command 3 (some (9 ∷ [])) ∷ []

run_value : (run (new_database true) batch).0 ≡ none ∷ none ∷ some (7 ∷ []) ∷ []
unfolding run
run_value = refl

run_lem_example :
    (get (run (new_database true) batch).1 1 ≡ last_or (get (new_database true) 1) (writes 1 batch))
    × ((run (new_database true) batch).1.version ≡ 0 + write_count batch)
    × (history (run (new_database true) batch).1 1
        ≡ history (new_database true) 1 ++ writes 1 batch)
run_lem_example = run_lem (new_database true) batch 1

batches_commute_example :
    ((run (run (new_database true) batch).1 other).0 ≡ (run (new_database true) other).0)
    × ((run (run (new_database true) other).1 batch).0 ≡ (run (new_database true) batch).0)
    × SameView
        (run (run (new_database true) batch).1 other).1
        (run (run (new_database true) other).1 batch).1
unfolding conflict_batch
batches_commute_example = batches_commute (new_database true) batch other refl

equal_iff_example : (equal (command 1 none) (command 1 (some [])) ≡ true) ↔ (
    (◌≡◌ {A = ℕ} 1 1)
    × (bytes none ≡ bytes (some []))
    × (◌≡◌ {A = ℕ} 65537 65537)
    × (◌≡◌ {A = ℕ} 1 1))
equal_iff_example = equal_iff (command 1 none) (command 1 (some []))

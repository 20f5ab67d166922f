-- ===== src/Id/Tests.antt =====
-- The theorems on identities at concrete nodes.
use pigpaxos.Prelude.{ℕ, ◌<◌, ◌≡◌, ◌↔◌, true, arith, refl}
use pigpaxos.Prelude.Int.{pos, negsuc}
use pigpaxos.Id.{new_id, zone_of, node_of, less, compare_id}
use pigpaxos.Id.Fields.{new_id_fields}
use pigpaxos.Id.Order.{compare_id_order}

new_id_value : new_id 3 7 ≡ 196615
unfolding new_id
new_id_value = refl

new_id_fields_example :
    (zone_of (new_id 3 7) ≡ 3)
    × (node_of (new_id 3 7) ≡ 7)
    × (new_id (zone_of 196615) (node_of 196615) ≡ 196615)
new_id_fields_example = new_id_fields 3 7 196615 (omega arith) (omega arith) (omega arith)

compare_id_order_example :
    ((compare_id 65538 131073 ≡ negsuc 0) ↔ (65538 < 131073))
    × ((compare_id 65538 131073 ≡ pos 1) ↔ (131073 < 65538))
    × ((compare_id 65538 131073 ≡ pos 0) ↔ (◌≡◌ {A = ℕ} 65538 131073))
    × ((less 65538 131073 ≡ true) ↔ (65538 < 131073))
compare_id_order_example = compare_id_order 65538 131073 (omega arith) (omega arith)

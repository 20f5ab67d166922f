-- ===== src/Id/Order.antt =====
-- Both orders on identities are the order of the uint32 values.
use pigpaxos.Prelude.{ℕ, ◌^◌, ◌<◌, ◌≡◌, ◌↔◌, true, arith}
use pigpaxos.Prelude.Int.{pos, negsuc}
use pigpaxos.Id.{zone_of, less, compare_id}
use pigpaxos.Id.Fields.{node_of_lem}

-- `compareID` returns -1, 1 and 0 exactly when the first identity is below, above and equal to
-- the second as a number, and `Less` holds exactly when it is below.
pub compare_id_order :
    (a b : ℕ)
    → a < 2 ^ 32
    → b < 2 ^ 32
    → ((compare_id a b ≡ negsuc 0) ↔ (a < b))
      × ((compare_id a b ≡ pos 1) ↔ (b < a))
      × ((compare_id a b ≡ pos 0) ↔ (a ≡ b))
      × ((less a b ≡ true) ↔ (a < b))
unfolding compare_id less zone_of
compare_id_order a b ha hb = ground (arith, node_of_lem a ha, node_of_lem b hb)

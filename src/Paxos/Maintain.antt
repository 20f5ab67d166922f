-- ===== src/Paxos/Maintain.antt =====
-- The timed calls: `P3Sync`, `CheckNeedForRecovery`, `CleanupLog`.
use pigpaxos.Prelude.{
  ℕ, zero, suc, ◌+◌, ◌-◌, List, [], ◌∷◌, ◌++◌, none, some, ◌&&◌, ltb, if◌then◌else◌,
}
use pigpaxos.Prelude.Assoc.{lookup, insert, erase}
use pigpaxos.Pig.State.{Entry}
use pigpaxos.Pig.Maintain.{least_marker}
use pigpaxos.Paxos.State.{committed, Paxos, emit, is_leader, recover_from}

-- `P3Sync`
unfoldable pub p3_sync : ℕ → Paxos → Paxos
p3_sync now p =
    if ltb p.last_p3_time (now - 10) && ltb 0 p.last_p3_time && ltb 0 p.p3_ballot
    then record p {
      out = p.out ++ committed (record { ballot = p.p3_ballot; slots = p.p3_slots }) ∷ [];
      last_p3_time = now;
      p3_slots = [];
    }
    else p

-- the loop of `CheckNeedForRecovery` over `rounds` slots from `s` on
unfoldable pub unrecovered : List (ℕ × Entry) → ℕ → ℕ → List ℕ
unrecovered log s zero = []
unrecovered log s (suc rounds) =
    let rest = unrecovered log (s + 1) rounds in
    elim (lookup s log) [ none ↦ s ∷ rest | some e ↦ if e.commit then rest else s ∷ rest ]

-- `CheckNeedForRecovery`
unfoldable pub check_need_for_recovery : Paxos → Paxos
check_need_for_recovery p =
    if ltb (p.execute + 11) p.next_slot
    then emit
        (recover_from p.id p.ballot (unrecovered p.log p.execute (p.next_slot - 11 - p.execute))) p
    else p

-- `UpdateLastExecutedByNode`
unfoldable pub update_last_executed : ℕ → ℕ → Paxos → Paxos
update_last_executed id last p = record p { execute_by_node = insert id last p.execute_by_node }

-- `GetGlobalExecuteMarker`; its loop is that of pigpaxos/pigpaxos.go
unfoldable pub mark_executed : Paxos → Paxos
mark_executed p =
    if is_leader p
    then record p { global_executed = least_marker p.execute p.execute_by_node }
    else p

-- the loop of `CleanupLog`
unfoldable pub delete_from : ℕ → ℕ → List (ℕ × Entry) → List (ℕ × Entry)
delete_from i zero log = log
delete_from i (suc rounds) log = delete_from (i + 1) rounds (erase i log)

-- `CleanupLog`
unfoldable pub cleanup_log : Paxos → Paxos
cleanup_log p =
    let p' = mark_executed p in
    record p' {
      log = delete_from p'.last_cleanup (p'.global_executed - p'.last_cleanup) p'.log;
      last_cleanup = p'.global_executed;
    }

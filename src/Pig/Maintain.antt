-- ===== src/Pig/Maintain.antt =====
-- The timed events: `CheckTimeout`, the markers of the other nodes and `CleanupLog`.
use pigpaxos.Prelude.{
  ℕ, zero, suc, ◌+◌, ◌-◌, List, [], ◌∷◌, ◌++◌, Option, none, some, not, ◌&&◌, ltb, ◌==◌,
  if◌then◌else◌,
}
use pigpaxos.Prelude.Assoc.{lookup, insert, erase}
use pigpaxos.Pig.Msg.{committed}
use pigpaxos.Pig.State.{Entry, broadcast, PigPaxos}
use pigpaxos.Pig.Prepare.{retry_p1a}
use pigpaxos.Pig.Accept.{retry_p2a, in_ms}

-- the retry of the entry at the next slot to execute
unfoldable pub retry_slot : ℕ → Option Entry → PigPaxos → PigPaxos
retry_slot timeout none p = p
retry_slot timeout (some e) p =
    if not e.commit && ltb e.timestamp timeout then retry_p2a p.execute e p else p

-- the retries of `CheckTimeout`
unfoldable pub retry : ℕ → ℕ → PigPaxos → PigPaxos
retry timeout now p =
    if p.active && ltb p.execute p.next_slot
    then retry_slot timeout (lookup p.execute p.log) p
    else if not p.active && ltb p.p1a_time timeout
    then retry_p1a now p
    else p

-- `CheckTimeout`
unfoldable pub check_timeout : ℕ → ℕ → PigPaxos → PigPaxos
check_timeout timeout now p =
    let p' = retry timeout now p in
    if ltb p'.last_p3_time (in_ms now - 10) && ltb 0 p'.last_p3_time && ltb 0 p'.p3_ballot
    then record p' {
      out =
          p'.out
          ++ broadcast (committed (record { ballot = p'.p3_ballot; slots = p'.p3_slots })) ∷ [];
      last_p3_time = in_ms now;
      p3_slots = [];
    }
    else p'

-- `UpdateLastExecuteByNode`
unfoldable pub update_executed : ℕ → ℕ → PigPaxos → PigPaxos
update_executed id last p = record p { executed_by_node = insert id last p.executed_by_node }

-- the loop of `GetSafeLogCleanupMarker`
unfoldable pub least_marker : ℕ → List (ℕ × ℕ) → ℕ
least_marker marker [] = marker
least_marker marker ((id, c) ∷ rest) = least_marker (if ltb c marker then c else marker) rest

-- `GetSafeLogCleanupMarker`, plus one
unfoldable pub cleanup_marker : PigPaxos → ℕ
cleanup_marker p = least_marker (p.execute + 1) p.executed_by_node

-- the loop of `CleanupLog` over `rounds` markers from `i` on; the marker 0 stands for slot -1
unfoldable pub delete_slots : ℕ → ℕ → List (ℕ × Entry) → List (ℕ × Entry)
delete_slots i zero log = log
delete_slots i (suc rounds) log =
    delete_slots (i + 1) rounds (if i == 0 then log else erase (i - 1) log)

-- `CleanupLog`
unfoldable pub cleanup_log : PigPaxos → PigPaxos
cleanup_log p =
    let marker = cleanup_marker p in
    record p {
      log = delete_slots p.last_cleanup (marker - p.last_cleanup) p.log;
      last_cleanup = marker;
    }

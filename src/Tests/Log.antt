-- ===== src/Tests/Log.antt =====
-- The Raft log.
use mathlib.Core.List.{Perm}
use replicat.Prelude.{ℕ, none, List, ◌≡◌, refl, arith, true, [], ◌∷◌, leb, ◌&&◌}
use replicat.Exec.{ok, settled}
use replicat.Sql.Tables.{meaning}
use replicat.Env.Memory.{memory, memory-IsFaithful}
use replicat.Handle.{execute_or, execute, fetch_all, convert_rows}
use replicat.Raft.{System}
use replicat.Raft.Log.{
  Range, included, excluded, unbounded, append_to_log, delete_conflict_logs_since, purge_logs_upto,
  try_get_log_entries, get_log_state, range_start, range_end,
}
use replicat.Raft.Log.Abstract.{where_index, put_entries}
use replicat.Raft.Log.Writes.{log_tables, Refines}
use replicat.Raft.Log.Append.{Appended, append_to_log-Appended}
use replicat.Raft.Log.Delete.{Purged, delete_conflict_logs_since-Refines, purge_logs_upto-Purged}
use replicat.Raft.Log.Bounds.{contains, logs_query-contains}
use replicat.Raft.Log.Reads.{try_get_log_entries-Perm, try_get_log_entries-wraps}
use replicat.Raft.Log.ReadBack.{append_to_log-try_get_log_entries}
use replicat.Raft.Log.History.{
  Shows, AbstractLog, Write, appends, deletes, purges, Effects, write_all, Holds,
  write_all-get_log_state,
}
use replicat.Tests.Data.{id, first_entry, second_entry, two_entries, request_entry, empty_system}

abbrev pub appended : System memory
appended = (append_to_log memory two_entries empty_system).1

append_to_log-Appended_example :
    Appended memory
      (log_tables empty_system)
      (log_tables appended)
      two_entries
      []
      (append_to_log memory two_entries empty_system).0
unfolding append_to_log
append_to_log-Appended_example =
    append_to_log-Appended memory memory-IsFaithful two_entries empty_system [] tt

append_to_log_ok : (append_to_log memory two_entries empty_system).0 ≡ ok tt
unfolding append_to_log meaning execute_or execute
append_to_log_ok = refl

-- an entry that has no encoding ends the loop
append_to_log_stops :
    (append_to_log memory (request_entry ∷ two_entries) empty_system).1.world.conns 0 ≡ []
unfolding append_to_log meaning execute_or execute
append_to_log_stops = refl

pub appended-Refines : Refines appended two_entries
unfolding append_to_log meaning execute_or execute
appended-Refines = (
  record { node_id = refl; log_index = refl; term = refl; entry = refl },
  (record { node_id = refl; log_index = refl; term = refl; entry = refl }, tt),
)

delete_conflict_logs_since-Refines_example :
    let (r, s') = delete_conflict_logs_since memory (id 2) appended in
    Refines s' (settled r (first_entry ∷ []) two_entries)
delete_conflict_logs_since-Refines_example =
    delete_conflict_logs_since-Refines memory memory-IsFaithful (id 2) appended two_entries
      appended-Refines

purge_logs_upto-Purged_example :
    let (r, s') = purge_logs_upto memory (id 1) appended in
    Purged memory memory-IsFaithful (id 1) (log_tables appended) (log_tables s') two_entries r
purge_logs_upto-Purged_example =
    purge_logs_upto-Purged memory memory-IsFaithful (id 1) appended two_entries appended-Refines

-- `2..`
abbrev from_two : Range
from_two = record { start_bound = included 2; end_bound = unbounded }

-- `0..2`
abbrev below_two : Range
below_two = record { start_bound = included 0; end_bound = excluded 2 }

logs_query-contains_example :
    (leb (range_start below_two.start_bound) 1 && leb 1 (range_end below_two.end_bound)) ≡ true
logs_query-contains_example =
    logs_query-contains below_two 1 (tt, (omega arith, omega arith)) (omega arith)

-- `2..0` contains nothing, and the second entry comes back
try_get_log_entries-wraps_example :
    Perm (second_entry ∷ []) (second_entry ∷ [])
    × (where_index
          (contains (record { start_bound = included 2; end_bound = excluded 0 }))
          two_entries
        ≡ [])
unfolding append_to_log meaning execute_or execute try_get_log_entries fetch_all convert_rows
try_get_log_entries-wraps_example =
    try_get_log_entries-wraps memory memory-IsFaithful (included 2) appended two_entries
      (second_entry ∷ []) appended-Refines tt (omega arith, (omega arith, tt)) refl

try_get_log_entries-Perm_example : Perm (second_entry ∷ []) (second_entry ∷ [])
unfolding append_to_log meaning execute_or execute try_get_log_entries fetch_all convert_rows
try_get_log_entries-Perm_example =
    try_get_log_entries-Perm memory memory-IsFaithful from_two appended two_entries
      (second_entry ∷ []) appended-Refines (tt, tt) (omega arith, (omega arith, tt)) refl

append_to_log-try_get_log_entries_example : Perm (second_entry ∷ []) (second_entry ∷ [])
unfolding append_to_log meaning execute_or execute try_get_log_entries fetch_all convert_rows
    put_entries
append_to_log-try_get_log_entries_example =
    append_to_log-try_get_log_entries memory memory-IsFaithful from_two two_entries []
      (second_entry ∷ []) empty_system tt (tt, tt) (omega arith, (omega arith, tt)) refl refl

-- entries are appended, one of which has no encoding, one is deleted, and the first one is purged
abbrev writes : List (Write ℕ)
writes =
    appends two_entries
    ∷ appends (first_entry ∷ request_entry ∷ [])
    ∷ deletes (id 2)
    ∷ purges (id 1)
    ∷ []

abbrev empty_log : AbstractLog ℕ
empty_log = record { entries = []; purged = none }

write_all-get_log_state_example :
    let (done, s') = write_all memory writes empty_system in
    (log' : AbstractLog ℕ) × Effects done empty_log log'
    × Holds memory s' log'
    × Shows memory (get_log_state memory s').0 log'
write_all-get_log_state_example =
    write_all-get_log_state memory memory-IsFaithful writes empty_system empty_log (tt, refl)

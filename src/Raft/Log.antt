-- ===== src/Raft/Log.antt =====
-- The Raft log in src/storage/raft.rs: `RaftLogReader`, and the calls of `RaftStorage` that write
-- the log.
pub mod Abstract
pub mod Writes
pub mod Append
pub mod Delete
pub mod Bounds
pub mod Reads
pub mod State
pub mod ReadBack
pub mod History
use replicat.Prelude.{ℕ, ◌+◌, ◌-◌, ◌%◌, ◌^◌, Option, none, some, List, [], ◌∷◌}
use replicat.Prelude.Int.{ℤ, as_u64}
use replicat.Exec.{Result, ok, err, Exec, pure, lift, map_err, with_err, ◌>>=◌, ◌>>◌}
use replicat.Openraft.{LogId, LogState, Entry, StorageError}
use replicat.Sql.{
  Bytes, Sql, bytes, u64, select_last_log, log_upsert, delete_logs_since, delete_logs_upto,
  select_logs,
}
use replicat.Env.{Env}
use replicat.Library.{to_bytes, from_bytes}
use replicat.Handle.{
  World, StorageHandle, execute_or, fetch_one, fetch_all, from_row_i64s, from_row_bytes,
}
use replicat.Raft.{System, Storage, on_world, log_read_error, log_write_error}
use replicat.Raft.Store.{get_last_purged_log_id, set_last_purged_log_id}

-- std::ops::Bound and the two ends of a `RangeBounds<u64>`
pub data Bound : Type 0 where
  included excluded : ℕ → Bound
  unbounded : Bound

pub record Range : Type 0 where
  pub start_bound : Bound
  pub end_bound : Bound

-- `*x + 1` and `*x - 1` on a `u64`, as a build without overflow checks computes them.
abbrev pub range_start : Bound → ℕ
range_start (included x) = x
range_start (excluded x) = (x + 1) % 2 ^ 64
range_start unbounded = 0

abbrev pub range_end : Bound → ℕ
range_end (included x) = x
range_end (excluded x) = (x + 2 ^ 64 - 1) % 2 ^ 64
range_end unbounded = 2 ^ 63 - 1

unfoldable pub logs_query : Range → Sql
logs_query range = select_logs (range_start range.start_bound) (range_end range.end_bound)

module _ (env : Env) where
  open env use {Membership, entry_codec}

  abbrev pub log_id_of : ℤ × ℤ × ℤ → LogId
  log_id_of (node_id, index, term) = record {
    leader_id = record { term = as_u64 term; node_id = as_u64 node_id };
    index = as_u64 index;
  }

  abbrev pub some_log_id : Option (ℤ × ℤ × ℤ) → Option LogId
  some_log_id none = none
  some_log_id (some row) = some (log_id_of row)

  unfoldable pub get_last_log_entry : Storage env (Option LogId)
  get_last_log_entry s =
      on_world
        (do
          row ←
              with_err (λ _. log_read_error)
                (fetch_one env s.raft.log (from_row_i64s env) select_last_log [])
          pure (some_log_id row))
        s

  -- `Option::or`
  abbrev pub or_else : Option LogId → Option LogId → Option LogId
  or_else none b = b
  or_else (some a) b = some a

  unfoldable pub get_log_state : Storage env LogState
  get_log_state = do
    last_log_id ← get_last_log_entry
    last_purged_log_id ← get_last_purged_log_id env
    pure (record {
      last_purged_log_id = last_purged_log_id;
      last_log_id = or_else last_log_id last_purged_log_id;
    })

  unfoldable pub decode_entries : List Bytes → Result StorageError (List (Entry Membership))
  decode_entries [] = ok []
  decode_entries (data' ∷ rows) =
      let rest = decode_entries rows in
      elim (from_bytes entry_codec data') [
        | err e ↦ err log_read_error
        | ok entry ↦ elim rest [ ok entries ↦ ok (entry ∷ entries) | err e ↦ err e ]
      ]

  unfoldable pub try_get_log_entries : Range → Storage env (List (Entry Membership))
  unfolding logs_query decode_entries
  try_get_log_entries range s =
      on_world
        (do
          entries ←
              with_err (λ _. log_read_error)
                (fetch_all env s.raft.log (from_row_bytes env) (logs_query range) [])
          lift (decode_entries entries))
        s

  -- one round of the loop in `append_to_log`
  unfoldable pub append_entry :
      StorageHandle → Entry Membership → Exec (World env) StorageError Unit
  append_entry log entry = do
    entry_data ← lift (map_err (λ _. log_write_error) (to_bytes entry_codec entry))
    execute_or env log_write_error log log_upsert (
        u64 entry.log_id.leader_id.node_id
        ∷ u64 entry.log_id.index
        ∷ u64 entry.log_id.leader_id.term
        ∷ bytes entry_data
        ∷ [])

  unfoldable pub append_entries :
      StorageHandle → List (Entry Membership) → Exec (World env) StorageError Unit
  append_entries log [] = pure tt
  append_entries log (entry ∷ entries) = append_entry log entry >> append_entries log entries

  unfoldable pub append_to_log : List (Entry Membership) → Storage env Unit
  unfolding append_entries append_entry
  append_to_log entries s = on_world (append_entries s.raft.log entries) s

  unfoldable pub delete_conflict_logs_since : LogId → Storage env Unit
  delete_conflict_logs_since log_id s =
      on_world (execute_or env log_write_error s.raft.log delete_logs_since (u64 log_id.index ∷ []))
        s

  abbrev pub delete_upto : LogId → Storage env Unit
  delete_upto log_id s =
      on_world (execute_or env log_write_error s.raft.log delete_logs_upto (u64 log_id.index ∷ []))
        s

  unfoldable pub purge_logs_upto : LogId → Storage env Unit
  purge_logs_upto log_id = set_last_purged_log_id env log_id >> delete_upto log_id

-- ===== src/Sql.antt =====
-- The SQL that src/storage/raft.rs and src/storage/mod.rs send to SQLite: each statement of the
-- source is a constructor, and the values bound to it are a list of parameters.
pub mod Tables
use replicat.Prelude.{ℕ, String, List}
use replicat.Prelude.Int.{ℤ}

abbrev pub Bytes : Type 0
Bytes = List ℕ

-- A value of a column. A float is opaque, and stands here by its bit pattern.
pub data Value : Type 0 where
  null : Value
  integer : ℤ → Value
  real : ℕ → Value
  text : String → Value
  blob : Bytes → Value

-- What the source binds to a statement.
pub data Param : Type 0 where
  key : String → Param
  bytes : Bytes → Param
  u64 : ℕ → Param
  value : Value → Param

abbrev pub Row : Type 0
Row = List Value

pub data Sql : Type 0 where
  -- CREATE TABLE IF NOT EXISTS replicat_kv_states, and replicat_raft_logs
  create_kv_table create_logs_table : Sql
  -- SELECT value FROM replicat_kv_states WHERE key = ?
  kv_select_value : Sql
  -- INSERT INTO replicat_kv_states … ON CONFLICT(key) DO UPDATE
  kv_upsert : Sql
  -- UPDATE replicat_kv_states SET value = value + 1 WHERE key = ? RETURNING value
  kv_increment : Sql
  -- INSERT INTO replicat_kv_states (key, value) VALUES (?, 0)
  kv_insert_zero : Sql
  -- SELECT node_id, log_index, term FROM replicat_raft_logs ORDER BY log_index DESC LIMIT 1
  select_last_log : Sql
  -- INSERT INTO replicat_raft_logs … ON CONFLICT(log_index) DO UPDATE
  log_upsert : Sql
  -- DELETE FROM replicat_raft_logs WHERE log_index >= ?
  delete_logs_since : Sql
  -- DELETE FROM replicat_raft_logs WHERE log_index <= ?
  delete_logs_upto : Sql
  -- SELECT entry FROM replicat_raft_logs WHERE log_index >= {} AND log_index <= {}
  select_logs : ℕ → ℕ → Sql
  -- SELECT name FROM sqlite_master
  select_schema : Sql
  -- pragma journal_mode = WAL; pragma synchronous = normal; pragma temp_store = memory
  pragma_journal_mode pragma_synchronous pragma_temp_store : Sql
  -- pragma journal_mode = OFF; pragma synchronous = OFF
  pragma_journal_off pragma_synchronous_off : Sql
  -- a text that a client wrote
  client : String → Sql

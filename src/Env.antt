-- ===== src/Env.antt =====
-- What the program calls and does not implement: SQLite through rusqlite, the file system, the
-- serializer and openraft's memberships. `Env` holds the calls, `IsFaithful` what their
-- documentation promises of them and the source relies on.
pub mod Memory
use mathlib.Core.List.{Perm}
use replicat.Prelude.{
  ℕ, String, ◌≡◌, ◌≢◌, Bool, true, false, Option, none, some, List, [], ◌++◌, length, drop,
}
use replicat.Prelude.Int.{ℤ}
use replicat.Exec.{Result, ok, err}
use replicat.Sql.{
  Bytes, Value, integer, blob, Param, Row, Sql, select_logs, select_schema, pragma_journal_mode,
  pragma_synchronous, pragma_temp_store,
}
use replicat.Sql.Tables.{Tables, meaning}
use replicat.Openraft.{LogId, LeaderId, Vote, Entry, SnapshotMeta}

-- rusqlite::Error
pub data SqlError : Type 0 where
  sqlite_failure : ℕ → String → SqlError
  bad_column no_rows : SqlError

-- std::io::Error, by its kind
pub data IoError : Type 0 where
  not_found other : IoError

abbrev pub FilePath : Type 0
FilePath = String

-- rmp_serde at one type
pub record Codec (A : Type 0) : Type 0 where
  pub to_vec : A → Result Unit Bytes
  pub from_slice : Bytes → Result Unit A

pub record Env : Type 1 where
  -- a connection of rusqlite, and the two tables that it shows
  pub Conn : Type 0
  pub tables : Conn → Tables
  -- `Connection::open` and `open_in_memory`
  pub open_conn : FilePath → Result SqlError Conn
  pub open_in_memory : Result SqlError Conn
  -- `prepare_cached` and `Statement::execute`; `prepare_cached` and all rows of `Statement::query`
  pub run_execute : Conn → Sql → List Param → Result SqlError ℕ × Conn
  pub run_query : Conn → Sql → List Param → Result SqlError (List Row) × Conn
  -- `FromSql` for `Vec<u8>`, `i64` and `String`
  pub bytes_from_sql : Value → Result SqlError Bytes
  pub i64_from_sql : Value → Result SqlError ℤ
  pub string_from_sql : Value → Result SqlError String
  -- the C interface: a null pointer is `none`, a status is a number, and 0 is SQLITE_OK
  pub sqlite3_malloc64 : ℕ → Bool
  pub sqlite3_serialize : Conn → Option Bytes
  pub sqlite3_deserialize : Conn → Bytes → ℕ × Conn
  -- the tables in a serialized database
  pub image_tables : Bytes → Tables
  -- the file system: the content of a file; opening it to write, with `create` and without
  -- `truncate`; writing from its start; `sync_data` and `flush`; reading it whole
  pub Disk : Type 0
  pub file : Disk → FilePath → Option Bytes
  pub open_write : Disk → FilePath → Result IoError Unit × Disk
  pub write_all : Disk → FilePath → Bytes → Result IoError Unit × Disk
  pub sync_file : Disk → FilePath → Result IoError Unit × Disk
  pub read_file : Disk → FilePath → Result IoError Bytes
  -- openraft
  pub Membership : Type 0
  pub EffectiveMembership : Type 0
  pub effective_new : Option LogId → Membership → EffectiveMembership
  pub effective_default : EffectiveMembership
  pub display_leader : LeaderId → String
  -- rmp_serde
  pub log_id_codec : Codec LogId
  pub vote_codec : Codec Vote
  pub entry_codec : Codec (Entry Membership)
  pub membership_codec : Codec EffectiveMembership
  pub meta_codec : Codec (SnapshotMeta EffectiveMembership)

-- Rows without an ORDER BY come in any order.
abbrev pub Shows : Sql → List Row → List Row → Type 0
Shows (select_logs _ _) got want = Perm got want
Shows _ got want = got ≡ want

-- What is read back is what was written.
pub record IsRoundTrip {A : Type 0} (c : Codec A) : Type 0 where
  pub decode : (a : A) (b : Bytes) → c.to_vec a ≡ ok b → c.from_slice b ≡ ok a

-- The bytes of a file after a write of `new` at its start.
abbrev pub overlay : Bytes → Option Bytes → Bytes
overlay new none = new
overlay new (some old) = new ++ drop (length new) old

pub record IsFaithful (env : Env) : Type 0 where
  -- a statement that succeeds does what it says, and one that fails changes no row
  pub execute_ok :
      (c : env.Conn) (s : Sql) (ps : List Param) (t : Tables) (rows : List Row) (n : ℕ)
      → meaning s ps (env.tables c) ≡ some (t, rows)
      → (env.run_execute c s ps).0 ≡ ok n
      → env.tables (env.run_execute c s ps).1 ≡ t
  pub execute_err :
      (c : env.Conn) (s : Sql) (ps : List Param) (e : SqlError)
      → (env.run_execute c s ps).0 ≡ err e
      → env.tables (env.run_execute c s ps).1 ≡ env.tables c
  pub query_ok :
      (c : env.Conn) (s : Sql) (ps : List Param) (t : Tables) (want got : List Row)
      → meaning s ps (env.tables c) ≡ some (t, want)
      → (env.run_query c s ps).0 ≡ ok got
      → (env.tables (env.run_query c s ps).1 ≡ t) × Shows s got want
  pub query_err :
      (c : env.Conn) (s : Sql) (ps : List Param) (e : SqlError)
      → (env.run_query c s ps).0 ≡ err e
      → env.tables (env.run_query c s ps).1 ≡ env.tables c
  pub schema_ok : (c : env.Conn) → env.tables (env.run_query c select_schema []).1 ≡ env.tables c
  -- the settings of a connection are not in its tables
  pub journal_mode_ok :
      (c : env.Conn) → env.tables (env.run_query c pragma_journal_mode []).1 ≡ env.tables c
  pub synchronous_ok :
      (c : env.Conn) → env.tables (env.run_execute c pragma_synchronous []).1 ≡ env.tables c
  pub temp_store_ok :
      (c : env.Conn) → env.tables (env.run_execute c pragma_temp_store []).1 ≡ env.tables c
  pub bytes_ok : (b : Bytes) → env.bytes_from_sql (blob b) ≡ ok b
  pub i64_ok : (i : ℤ) → env.i64_from_sql (integer i) ≡ ok i
  -- `sqlite3_malloc64` of nothing is a null pointer
  pub malloc_zero : env.sqlite3_malloc64 0 ≡ false
  pub serialize_ok :
      (c : env.Conn) (b : Bytes)
      → env.sqlite3_serialize c ≡ some b
      → env.image_tables b ≡ env.tables c
  pub deserialize_ok :
      (c : env.Conn) (b : Bytes)
      → (env.sqlite3_deserialize c b).0 ≡ 0
      → env.tables (env.sqlite3_deserialize c b).1 ≡ env.image_tables b
  -- a file that is opened with `create` and without `truncate` keeps its content
  pub open_write_ok :
      (d : env.Disk) (p : FilePath)
      → (env.open_write d p).0 ≡ ok tt
      → env.file (env.open_write d p).1 p ≡ some (overlay [] (env.file d p))
  pub write_all_ok :
      (d : env.Disk) (p : FilePath) (b : Bytes)
      → (env.write_all d p b).0 ≡ ok tt
      → env.file (env.write_all d p b).1 p ≡ some (overlay b (env.file d p))
  pub sync_file_ok :
      (d : env.Disk) (p : FilePath)
      → (env.sync_file d p).0 ≡ ok tt
      → env.file (env.sync_file d p).1 p ≡ env.file d p
  pub read_file_ok :
      (d : env.Disk) (p : FilePath) (b : Bytes) → env.read_file d p ≡ ok b → env.file d p ≡ some b
  pub read_file_missing :
      (d : env.Disk) (p : FilePath) → env.read_file d p ≡ err not_found → env.file d p ≡ none
  pub log_id_ok : IsRoundTrip env.log_id_codec
  pub vote_ok : IsRoundTrip env.vote_codec
  pub entry_ok : IsRoundTrip env.entry_codec
  pub membership_ok : IsRoundTrip env.membership_codec
  pub meta_ok : IsRoundTrip env.meta_codec

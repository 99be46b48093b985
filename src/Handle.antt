-- ===== src/Handle.antt =====
-- src/storage/mod.rs: `StorageHandle`, a handle on a thread that owns a connection. A task runs on
-- that connection, so here it is run at once; Handle/Actor.antt has the channel between them.
-- Also src/storage/from_row_impl.rs.
pub mod Effects
pub mod Actor
pub mod Copy
pub mod FromRow
pub mod Memory
use replicat.Prelude.{
  ℕ, zero, suc, ◌+◌, ◌==◌, if◌then◌else◌, String, true, false, Option, none, some, List, [], ◌∷◌,
  length,
}
use replicat.Prelude.Int.{ℤ}
use replicat.Exec.{Result, ok, err, Exec, pure, lift, with_err, ◌>>=◌}
use replicat.Sql.{Bytes, Value, Param, Row, Sql, select_schema}
use replicat.Env.{Env, SqlError, sqlite_failure, bad_column, FilePath}

pub record StorageHandle : Type 0 where
  pub tx : ℕ

-- The threads' connections, by their number, and the disk.
pub record World (env : Env) : Type 0 where
  pub conns : ℕ → env.Conn
  pub spawned : ℕ
  pub disk : env.Disk

abbrev pub set_at {ℓ} : {A : Type ℓ} → (ℕ → A) → ℕ → A → ℕ → A
set_at f i a j = if i == j then a else f j

abbrev pub no_memory : SqlError
no_memory = sqlite_failure 7 "Failed to allocate buffer, is the system out of memory?"

abbrev pub status_result : ℕ → Result SqlError Unit
status_result zero = ok tt
status_result (suc n) = err (sqlite_failure (suc n) "Unable to create memory view for database")

module _ (env : Env) where
  open env use {
    Conn, open_conn, run_execute, run_query, bytes_from_sql, i64_from_sql, string_from_sql,
    sqlite3_malloc64, sqlite3_serialize, sqlite3_deserialize,
  }

  abbrev pub Sqlite : Type 0 → Type 0
  Sqlite A = Exec (World env) SqlError A

  -- a callback of a task
  abbrev Task : Type 0 → Type 0
  Task A = Conn → Result SqlError A × Conn

  unfoldable pub submit_task : {A : Type 0} → StorageHandle → Task A → Sqlite A
  submit_task h inner w =
      let (res, conn) = inner (w.conns h.tx) in (res, record w { conns = set_at w.conns h.tx conn })

  unfoldable pub execute : StorageHandle → Sql → List Param → Sqlite ℕ
  unfolding submit_task
  execute h sql params = submit_task h (λ conn. run_execute conn sql params)

  -- `execute(..).await.map_err(..)?; Ok(())`, as the callers write it
  unfoldable pub execute_or :
      {E : Type 0} → E → StorageHandle → Sql → List Param → Exec (World env) E Unit
  execute_or fail h sql params = do rows ← with_err (λ _. fail) (execute h sql params); pure tt

  -- `row.get(i)`
  abbrev pub get_column : {A : Type 0} → (Value → Result SqlError A) → ℕ → Row → Result SqlError A
  get_column from_sql i [] = err bad_column
  get_column from_sql zero (v ∷ row) = from_sql v
  get_column from_sql (suc i) (v ∷ row) = get_column from_sql i row

  -- `from_row` of a tuple of one column and of three; the cursor counts up from 0
  abbrev pub from_row_bytes : Row → Result SqlError Bytes
  from_row_bytes row = get_column bytes_from_sql 0 row

  abbrev pub from_row_i64 : Row → Result SqlError ℤ
  from_row_i64 row = get_column i64_from_sql 0 row

  abbrev pub from_row_string : Row → Result SqlError String
  from_row_string row = get_column string_from_sql 0 row

  abbrev pub from_row_i64s : Row → Result SqlError (ℤ × ℤ × ℤ)
  from_row_i64s row = elim (get_column i64_from_sql 0 row) [
    | err e ↦ err e
    | ok a ↦ elim (get_column i64_from_sql 1 row) [
      | err e ↦ err e
      | ok b ↦ elim (get_column i64_from_sql 2 row) [ err e ↦ err e | ok c ↦ ok (a, b, c) ]
    ]
  ]

  -- `query_row(params, from_row).optional()`
  abbrev pub first_row :
      {A : Type 0}
      → (Row → Result SqlError A)
      → Result SqlError (List Row)
      → Result SqlError (Option A)
  first_row from_row (err e) = err e
  first_row from_row (ok []) = ok none
  first_row from_row (ok (row ∷ _)) = elim (from_row row) [ ok a ↦ ok (some a) | err e ↦ err e ]

  unfoldable pub fetch_one :
      {A : Type 0}
      → StorageHandle
      → (Row → Result SqlError A)
      → Sql
      → List Param
      → Sqlite (Option A)
  unfolding submit_task
  fetch_one h from_row sql params =
      submit_task h
        λ conn. let (rows, conn') = run_query conn sql params in (first_row from_row rows, conn')

  -- the loop over the rows, which ends at the first that does not convert
  unfoldable pub convert_rows :
      {A : Type 0} → (Row → Result SqlError A) → List Row → Result SqlError (List A)
  convert_rows from_row [] = ok []
  convert_rows from_row (row ∷ rows) =
      let rest = convert_rows from_row rows in
      elim (from_row row) [
        | err e ↦ err e
        | ok a ↦ elim rest [ ok others ↦ ok (a ∷ others) | err e ↦ err e ]
      ]

  abbrev all_rows :
      {A : Type 0}
      → (Row → Result SqlError A)
      → Result SqlError (List Row)
      → Result SqlError (List A)
  all_rows from_row (err e) = err e
  all_rows from_row (ok rows) = convert_rows from_row rows

  unfoldable pub fetch_all :
      {A : Type 0} → StorageHandle → (Row → Result SqlError A) → Sql → List Param → Sqlite (List A)
  unfolding submit_task
  fetch_all h from_row sql params =
      submit_task h
        λ conn. let (rows, conn') = run_query conn sql params in (all_rows from_row rows, conn')

  -- `SqliteMemory::from_slice`: a buffer of SQLite's own with a copy of the bytes
  unfoldable pub from_slice : Bytes → Result SqlError Bytes
  from_slice buf = if sqlite3_malloc64 (length buf) then ok buf else err no_memory

  unfoldable pub serialize_db : Task Bytes
  serialize_db conn = elim (sqlite3_serialize conn) [
    | none ↦ (err no_memory, conn)
    | some data' ↦ (ok data', conn)
  ]

  unfoldable pub deserialize_db : Bytes → Task Unit
  deserialize_db data' conn =
      let (status, conn') = sqlite3_deserialize conn data' in (status_result status, conn')

  abbrev pub serialize_if : StorageHandle → Option String → Sqlite (Option Bytes)
  serialize_if h none = pure none
  serialize_if h (some _) = do mem ← submit_task h serialize_db; pure (some mem)

  -- the database as bytes, or `none` if it has no table
  unfoldable pub serialize : StorageHandle → Sqlite (Option Bytes)
  unfolding fetch_one serialize_db
  serialize h = do name ← fetch_one h from_row_string select_schema []; serialize_if h name

  unfoldable pub load_from_serialized : StorageHandle → Bytes → Sqlite Unit
  unfolding submit_task deserialize_db
  load_from_serialized h mem = submit_task h (deserialize_db mem)

  -- a new thread that owns the connection
  abbrev pub spawn : Conn → Sqlite StorageHandle
  spawn conn w = (
    ok (record { tx = w.spawned }),
    record w { conns = set_at w.conns w.spawned conn; spawned = w.spawned + 1 },
  )

  -- `StorageHandle::open`: the connection is opened, and then its thread is spawned
  unfoldable pub open_handle : FilePath → Sqlite StorageHandle
  open_handle path = do conn ← lift (open_conn path); spawn conn

  unfoldable pub open_in_memory : Sqlite StorageHandle
  unfolding open_handle
  open_in_memory = open_handle ":memory:"

-- ===== src/Lib.antt =====
-- replicat: a replicated SQLite store. Each node runs openraft; `RaftStore` is its storage, over
-- SQLite databases that live on threads of their own; nodes talk over gRPC, and a client sends its
-- statements to the leader and reads the local database.
--
-- Parts of the program, and the files that model them:
--   src/storage/mod.rs, src/storage/from_row_impl.rs: Handle.antt (`StorageHandle`, the C interface
--     of SQLite), Handle/Copy.antt (`create_memory_copy`), Handle/Actor.antt (the bounded channel
--     and `run_tasks`, as a step relation; its child has `submit_task` over them), and
--     Handle/Memory.antt (`SqliteMemory` with its pointers), Handle/FromRow.antt (a row read as a
--     tuple of types). Handle/Effects.antt has lemmas.
--   src/storage/raft.rs: Raft.antt (the state), Raft/Open.antt, Raft/Store.antt (vote, purged id,
--     counter of snapshots), Raft/Log.antt (the log), Raft/Machine.antt (the state machine),
--     Raft/Snapshots.antt; Kv.antt has the pair of calls that writes and reads one value, which the
--     source repeats. Their children have the proofs. Raft/Calls.antt has the calls of openraft on
--     one store, in any order (its child Lives opens the store again on the files that they
--     leave), and Raft/Tasks.antt `build_snapshot` beside `apply_to_state_machine`, step by step.
--     Raft/Log/Abstract.antt is the specification of the log: a list of entries in the order of
--     their index; Raft/Log/History.antt adds the purged id, and what each call that writes the log
--     may do to the two.
--   src/lib.rs: Library.antt.
--   the SQL of src/storage/raft.rs: Sql.antt (the statements), Sql/Tables.antt (what they mean).
--   src/storage/params.rs: Params.antt, with Params/Tuples.antt (the tuples that a macro derives).
--   src/rpc/rpc_models.rs: Rpc.antt (the messages), Rpc/Wire.antt (the generated client) and
--     Rpc/Wire/Service.antt (the generated service), over which Rpc/Wire/EndToEnd.antt has calls
--     from a client to a node.
--   src/rpc/server.rs: Rpc/Server.antt. src/rpc/client.rs: Rpc/Client.antt. src/rpc/raft.rs:
--     Network.antt.
--   src/client.rs: Client.antt, with Client/Clones.antt (the clones of a client, whose calls share
--     the leader that they learn) and Client/Agreed.antt (a client over many nodes).
-- Functions have the names of the source; a handler of `RpcServer` is called `handle_` and its name,
-- since a client's call has the same one, and `open_store` and `open_handle` are `RaftStore::open`
-- and `StorageHandle::open`. Prelude.antt, Exec.antt: shared helpers, and calls that read and write
-- a state and may fail.
--
-- What the source calls and does not hold is a parameter: `Env` (SQLite, the file system, rmp_serde,
-- openraft's memberships), with the promises `IsFaithful`; `Peer` (a node of openraft), with
-- `RoundTrips`; `Tonic` and `Transport`; `Grpc` and `Prost` (tonic and prost behind the generated
-- code), with `IsGrpc`; `SqliteHeap` (SQLite's allocator, and the buffers that its connections own),
-- with `IsSqliteHeap`. Env/Memory.antt is an `Env` for which `IsFaithful` holds:
-- its databases are logs of statements. Promises speak of calls that succeed, and of failed
-- statements that change no row; no call is promised to succeed.
--
-- Conventions: a call returns its result with the state that it left, also beside an error, since
-- what was written stays written. The text of an error is left out. A `u64` is a natural number,
-- and `x + 1`, `x - 1` in `logs_query` and the cast of an `i64` are written with their wrap-around,
-- as a build without overflow checks computes them. Bytes are numbers, a float is its bit pattern.
-- What a path is opened as is part of an `Env` and does not change there, so a store that is
-- opened again is opened in an `Env` with other files. A client's own SQL has no meaning here; where
-- a theorem needs that it leaves the store's keys alone, it says so. The tasks of one handle run one
-- after the other, so a call on a handle is one step, as Handle/Actor/Submit.antt relates them.
-- openraft builds a snapshot with a clone of the store on a task of its own, so Raft/Tasks.antt
-- interleaves that task with the one that applies entries; other calls of openraft on the store are
-- not interleaved.
--
-- Fuel and loops: loops over lists are structural. `execute_loop` counts `n_retry` down, which
-- starts at 3. `decimal` has 20 digits, enough for any `u64`. `run_tasks` has no bound, and is a
-- relation.
--
-- Not modelled: tracing and elapsed times, what tonic does with compression and interceptors, what
-- a lock does while a holder waits for it (a schedule of the clones of a client names
-- the steps between its locks), and the tests.
pub mod Prelude
pub mod Exec
pub mod Params
pub mod Sql
pub mod Openraft
pub mod Env
pub mod Library
pub mod Handle
pub mod Kv
pub mod Raft
pub mod Rpc
pub mod Network
pub mod Client
pub mod Tests

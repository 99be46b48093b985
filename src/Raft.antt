-- ===== src/Raft.antt =====
-- The state of src/storage/raft.rs: `RaftStore` and `StateMachine`, over the threads' connections.
pub mod Store
pub mod Log
pub mod Machine
pub mod Snapshots
pub mod Open
pub mod Calls
pub mod Tasks
use replicat.Prelude.{String, Option}
use replicat.Exec.{Result, Exec}
use replicat.Openraft.{LogId, StorageError, io, logs, store, no_subject, read, write}
use replicat.Env.{Env, FilePath}
use replicat.Handle.{StorageHandle, World}

abbrev pub snapshot_meta_key : String
snapshot_meta_key = "snapshot_meta"

abbrev pub last_membership_key : String
last_membership_key = "last_membership"

abbrev pub last_log_key : String
last_log_key = "last_applied_log"

abbrev pub vote_key : String
vote_key = "vote"

abbrev pub snapshot_index_key : String
snapshot_index_key = "snapshot_index"

abbrev pub last_purged_id_key : String
last_purged_id_key = "last_purged_id"

-- The live state. The two values in memory are behind locks in the source.
pub record StateMachine (env : Env) : Type 0 where
  pub last_applied_log : Option LogId
  pub last_membership : env.EffectiveMembership
  pub data' : StorageHandle

-- `log` and `state_machine.data'` are one handle if the store was opened with no state store.
pub record RaftStore (env : Env) : Type 0 where
  pub log : StorageHandle
  pub state_machine : StateMachine env
  pub snapshot_path : FilePath

pub record System (env : Env) : Type 0 where
  pub world : World env
  pub raft : RaftStore env

abbrev pub Storage : Env → Type 0 → Type 0
Storage env A = Exec (System env) StorageError A

-- a call on a handle changes nothing in memory
abbrev pub on_world : {env : Env} {E A : Type 0} → Exec (World env) E A → Exec (System env) E A
on_world m s = let (r, w) = m s.world in (r, record s { world = w })

abbrev pub log_read_error : StorageError
log_read_error = io logs read

abbrev pub log_write_error : StorageError
log_write_error = io logs write

abbrev pub store_read_error : StorageError
store_read_error = io store read

abbrev pub store_write_error : StorageError
store_write_error = io store write

abbrev pub create_snapshot_err : StorageError
create_snapshot_err = io no_subject write

-- ===== src/Raft/Open.antt =====
-- Opening the store in src/storage/raft.rs: `RaftStore::open`, `setup_log_store` and
-- `create_state_machine`.
pub mod Handles
pub mod Tables
pub mod Reopened
pub mod InMemory
use Prim.Native.String.{◌++◌}
use replicat.Prelude.{Option, none, some, []}
use replicat.Exec.{Exec, pure, with_err, ◌>>=◌, ◌>>◌}
use replicat.Sql.{
  create_kv_table, create_logs_table, pragma_journal_mode, pragma_synchronous, pragma_temp_store,
}
use replicat.Env.{Env, FilePath, SqlError}
use replicat.Handle.{
  World, StorageHandle, execute, execute_or, fetch_one, from_row_string, open_handle,
}
use replicat.Kv.{kv_get}
use replicat.Raft.{StateMachine, RaftStore, last_log_key, last_membership_key}

-- `Path::join` with a file's name
abbrev pub join : FilePath → FilePath → FilePath
join base name = base ++ "/" ++ name

module _ (env : Env) where
  open env use {EffectiveMembership, effective_default, log_id_codec, membership_codec}

  -- `unwrap_or_default`
  abbrev pub or_default : Option EffectiveMembership → EffectiveMembership
  or_default none = effective_default
  or_default (some m) = m

  unfoldable pub create_state_machine : StorageHandle → Exec (World env) Unit (StateMachine env)
  create_state_machine data' = do
    execute_or env tt data' create_kv_table []
    last_applied_log ← kv_get env log_id_codec tt data' last_log_key
    last_membership ← kv_get env membership_codec tt data' last_membership_key
    pure (record {
      last_applied_log = last_applied_log;
      last_membership = or_default last_membership;
      data' = data';
    })

  unfoldable pub setup_log_store : StorageHandle → Exec (World env) SqlError Unit
  setup_log_store conn = do
    mode ← fetch_one env conn (from_row_string env) pragma_journal_mode []
    r1 ← execute env conn pragma_synchronous []
    r2 ← execute env conn pragma_temp_store []
    r3 ← execute env conn create_logs_table []
    r4 ← execute env conn create_kv_table []
    pure tt

  -- a state store of its own, or the log's handle once more
  unfoldable pub open_data :
      StorageHandle → Option FilePath → Exec (World env) SqlError StorageHandle
  open_data log none = pure log
  open_data log (some path) = open_handle env path

  unfoldable pub open_store : FilePath → Option FilePath → Exec (World env) Unit (RaftStore env)
  unfolding open_data setup_log_store create_state_machine
  open_store base_path state_store = do
    log ← with_err (λ _. tt) (open_handle env (join base_path "log.db"))
    data' ← with_err (λ _. tt) (open_data log state_store)
    with_err (λ _. tt) (setup_log_store log)
    state_machine ← create_state_machine data'
    pure (record {
      log = log;
      state_machine = state_machine;
      snapshot_path = join base_path "snapshot.db";
    })

  unfoldable pub open_with_mem_state : FilePath → Exec (World env) Unit (RaftStore env)
  unfolding open_store
  open_with_mem_state base_path = open_store base_path (some ":memory:")

-- ===== src/Raft/Calls/Durable.antt =====
-- A store of src/storage/raft.rs that is opened again on its files.
use replicat.Prelude.{◌∙◌, ◌≡◌, some}
use replicat.Exec.{Result, ok}
use replicat.Env.{Env, IsFaithful, FilePath, SqlError}
use replicat.Handle.{World}
use replicat.Raft.{System, RaftStore, StateMachine}
use replicat.Raft.Log.Writes.{log_tables}
use replicat.Raft.Machine.Coherent.{Matches, data_tables}
use replicat.Raft.Open.{join, open_store}
use replicat.Raft.Open.Handles.{open_store-Placed}
use replicat.Raft.Open.Reopened.{IsOn-IsCoherent, open_store-IsOn}
use replicat.Raft.Calls.Settled.{IsSettled}

module _ (env : Env) where
  -- what each path is opened as
  abbrev pub Files : Type 0
  Files = FilePath → Result SqlError env.Conn

  -- the same machine, with the files as they are at another time
  abbrev pub with_files : Files → Env
  with_files files = record env { open_conn = files }

  -- files that keep the tables of a store
  abbrev pub Kept : FilePath → FilePath → Files → System env → Type 0
  Kept base path files s =
      ((c : env.Conn) → files (join base "log.db") ≡ ok c → env.tables c ≡ log_tables s)
      × ((c : env.Conn) → files path ≡ ok c → env.tables c ≡ data_tables s)

  -- a later store with the values in memory and the tables of an earlier one
  abbrev pub SameStore : {files : Files} → System env → System (with_files files) → Type 0
  SameStore s s' =
      (s'.raft.state_machine.last_applied_log ≡ s.raft.state_machine.last_applied_log)
      × (s'.raft.state_machine.last_membership ≡ s.raft.state_machine.last_membership)
      × (log_tables s' ≡ log_tables s)
      × (data_tables s' ≡ data_tables s)

module _ (env : Env) (law : IsFaithful env) where
  pub with_files-IsFaithful : (files : Files env) → IsFaithful (with_files env files)
  with_files-IsFaithful files = record {
    execute_ok = law.execute_ok;
    execute_err = law.execute_err;
    query_ok = law.query_ok;
    query_err = law.query_err;
    schema_ok = law.schema_ok;
    journal_mode_ok = law.journal_mode_ok;
    synchronous_ok = law.synchronous_ok;
    temp_store_ok = law.temp_store_ok;
    bytes_ok = law.bytes_ok;
    i64_ok = law.i64_ok;
    malloc_zero = law.malloc_zero;
    serialize_ok = law.serialize_ok;
    deserialize_ok = law.deserialize_ok;
    open_write_ok = law.open_write_ok;
    write_all_ok = law.write_all_ok;
    sync_file_ok = law.sync_file_ok;
    read_file_ok = law.read_file_ok;
    read_file_missing = law.read_file_missing;
    log_id_ok = law.log_id_ok;
    vote_ok = law.vote_ok;
    entry_ok = law.entry_ok;
    membership_ok = law.membership_ok;
    meta_ok = law.meta_ok;
  }

  -- a store that is opened on a state file of its own has the values of that file on both sides
  pub open_store-IsSettled :
      (base path : FilePath) (w : World env) (raft : RaftStore env) (m : StateMachine env)
      → ((c : env.Conn) → env.open_conn path ≡ ok c → Matches m (env.tables c))
      → (open_store env base (some path) w).0 ≡ ok raft
      → IsSettled (record { raft = raft; world = (open_store env base (some path) w).1 })
  open_store-IsSettled base path w raft m held e =
      let (c, c', _, conn', on) = open_store-IsOn env law base (some path) w raft e in
      record {
        apart = open_store-Placed env base (some path) w raft e;
        coherent =
            IsOn-IsCoherent c c'
              (record { raft = raft; world = (open_store env base (some path) w).1 }) m on
              (held c' conn');
      }

  -- a store that is opened on files that keep the tables of another one
  pub IsSettled-reopens :
      (base path : FilePath) (s : System env) (files : Files env) (w : World (with_files env files))
      (raft : RaftStore (with_files env files))
      → IsSettled s
      → Kept env base path files s
      → (open_store (with_files env files) base (some path) w).0 ≡ ok raft
      → let s' : System (with_files env files) = record {
        raft = raft;
        world = (open_store (with_files env files) base (some path) w).1;
      } in
        SameStore env s s' × IsSettled s'
  IsSettled-reopens base path s files w raft settled (log_kept, data_kept) e =
      let later = with_files env files in
      let (c, c', conn, conn', on) =
        open_store-IsOn later (with_files-IsFaithful files) base (some path) w raft e in
      let m : StateMachine later = record {
        last_applied_log = s.raft.state_machine.last_applied_log;
        last_membership = s.raft.state_machine.last_membership;
        data' = s.raft.state_machine.data';
      } in
      let held : Matches m (later.tables c') =
        rw (data_kept c' conn')
          (record { applied = settled.coherent.applied; effective = settled.coherent.effective }) in
      let (applied, effective) = on.values m held in
      (
        (applied, effective, on.log_same ∙ log_kept c conn, on.data_same ∙ data_kept c' conn'),
        record {
          apart = open_store-Placed later base (some path) w raft e;
          coherent =
              IsOn-IsCoherent c c'
                (record { raft = raft; world = (open_store later base (some path) w).1 }) m on held;
        },
      )

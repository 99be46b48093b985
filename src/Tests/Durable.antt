-- ===== src/Tests/Durable.antt =====
-- A store that is opened on empty files, called, stopped, and opened again.
use replicat.Prelude.{◌≡◌, refl, inl, true, none, some, [], str_eq, if◌then◌else◌}
use replicat.Prelude.Decimal.{decimal}
use replicat.Exec.{Result, ok}
use replicat.Openraft.{Vote}
use replicat.Sql.{Bytes}
use replicat.Sql.Tables.{meaning}
use replicat.Env.{SqlError, FilePath}
use replicat.Env.Memory.{memory, memory-IsFaithful}
use replicat.Handle.{
  World, open_handle, execute_or, execute, fetch_one, submit_task, serialize_db, serialize,
}
use replicat.Kv.{kv_put, kv_get}
use replicat.Raft.{System, RaftStore}
use replicat.Raft.Store.{
  save_vote, set_vote, get_and_inc_snapshot_index, count_snapshot, set_last_purged_log_id,
}
use replicat.Raft.Log.{append_to_log, append_entries, append_entry, purge_logs_upto}
use replicat.Raft.Log.Writes.{log_tables}
use replicat.Raft.Machine.{
  apply_to_state_machine, apply_entry, apply_payload, set_last_applied_log, set_last_membership,
  execute_request,
}
use replicat.Raft.Machine.Coherent.{Matches, data_tables}
use replicat.Raft.Snapshots.{
  build_snapshot, write_snapshot_meta, write_snapshot_file, store_snapshot, create_snapshot,
  snapshot_id_of,
}
use replicat.Raft.Open.{open_store, open_data, setup_log_store, create_state_machine}
use replicat.Raft.Calls.{Calls, saves_vote, appends, applies, builds, purges, none_made, one_more}
use replicat.Raft.Calls.Durable.{Files, with_files, Kept}
use replicat.Raft.Calls.Lives.{Lived, first, called, Lived-reopens}
use replicat.Tests.Data.{carried, id, two_entries}

abbrev fresh_world : World memory
fresh_world = record { conns = λ _. []; spawned = 0; disk = λ _. none }

abbrev first_store : RaftStore memory
first_store = record {
  log = record { tx = 0 };
  state_machine = record {
    last_applied_log = none;
    last_membership = (none, 0);
    data' = record { tx = 1 };
  };
  snapshot_path = "/db/snapshot.db";
}

abbrev first_opened : System memory
first_opened = record {
  raft = first_store;
  world = (open_store memory "/db" (some "/db/data.db") fresh_world).1;
}

abbrev vote : Vote
vote = record { term = 1; node_id = 7; committed = true }

abbrev voted : System memory
voted = (save_vote memory vote first_opened).1

abbrev logged : System memory
logged = (append_to_log memory two_entries voted).1

abbrev applied : System memory
applied = (apply_to_state_machine memory two_entries logged).1

abbrev built : System memory
built = (build_snapshot memory applied).1

abbrev stopped : System memory
stopped = (purge_logs_upto memory (id 2) built).1

calls : Calls memory first_opened stopped
calls = one_more (saves_vote vote) (
    one_more (appends two_entries) (
      one_more (applies two_entries (tt, (tt, tt)))
        (one_more builds (one_more (purges (id 2)) none_made))))

abbrev left_files : FilePath → Result SqlError Bytes
left_files path =
    if str_eq path "/db/log.db"
    then ok (stopped.world.conns stopped.raft.log.tx)
    else ok (stopped.world.conns stopped.raft.state_machine.data'.tx)

abbrev second_store : RaftStore (with_files memory left_files)
second_store = record {
  log = record { tx = 0 };
  state_machine = record {
    last_applied_log = some (id 2);
    last_membership = (some (id 2), 5);
    data' = record { tx = 1 };
  };
  snapshot_path = "/db/snapshot.db";
}

abbrev second_world : World (with_files memory left_files)
second_world = record { conns = λ _. []; spawned = 0; disk = λ _. none }

first_store_ok : (open_store memory "/db" (some "/db/data.db") fresh_world).0 ≡ ok first_store
unfolding open_store open_data setup_log_store create_state_machine open_handle kv_get execute_or
    execute fetch_one meaning
first_store_ok = refl

second_store_ok :
    (open_store (with_files memory left_files) "/db" (some "/db/data.db") second_world).0
    ≡ ok second_store
unfolding open_store open_data setup_log_store create_state_machine open_handle kv_put kv_get
    execute_or execute fetch_one meaning save_vote set_vote append_to_log append_entries
    append_entry apply_to_state_machine apply_entry apply_payload set_last_applied_log
    set_last_membership execute_request build_snapshot create_snapshot store_snapshot
    write_snapshot_file write_snapshot_meta get_and_inc_snapshot_index count_snapshot serialize
    serialize_db submit_task snapshot_id_of decimal purge_logs_upto set_last_purged_log_id
second_store_ok = refl

abbrev empty_files : Files memory
empty_files path = ok []

lived : Lived memory "/db" "/db/data.db" empty_files stopped
lived =
    called
      (first empty_files fresh_world first_store first_store.state_machine
        (λ c e.
          carried (λ x. Matches first_store.state_machine (memory.tables x)) [] c e
            (record { applied = refl; effective = inl (refl, refl) }))
        first_store_ok)
      calls

left_files-Kept : Kept memory "/db" "/db/data.db" left_files stopped
left_files-Kept = (
  (λ c e.
      carried (λ x. memory.tables x ≡ log_tables stopped) (stopped.world.conns stopped.raft.log.tx)
        c e refl),
  (λ c e.
      carried (λ x. memory.tables x ≡ data_tables stopped)
        (stopped.world.conns stopped.raft.state_machine.data'.tx) c e refl),
)

Lived-reopens_example :
    let s : System (with_files memory left_files) = record {
      raft = second_store;
      world = (open_store (with_files memory left_files) "/db" (some "/db/data.db") second_world).1;
    } in
    (second_store.state_machine.last_applied_log ≡ stopped.raft.state_machine.last_applied_log)
    × (second_store.state_machine.last_membership ≡ stopped.raft.state_machine.last_membership)
    × (log_tables s ≡ log_tables stopped)
    × (data_tables s ≡ data_tables stopped)
Lived-reopens_example =
    Lived-reopens memory memory-IsFaithful "/db" "/db/data.db" left_files second_world second_store
      lived left_files-Kept second_store_ok

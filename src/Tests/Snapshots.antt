-- ===== src/Tests/Snapshots.antt =====
-- Snapshots.
use replicat.Prelude.{◌≡◌, refl, arith, inr, none, some, [], ◌∷◌}
use replicat.Exec.{Result, ok, err}
use replicat.Openraft.{StorageError}
use replicat.Sql.{Bytes}
use replicat.Sql.Tables.{meaning}
use replicat.Env.{overlay}
use replicat.Env.Memory.{memory, memory-IsFaithful}
use replicat.Handle.{
  execute_or, execute, fetch_one, submit_task, serialize_db, serialize, deserialize_db, from_slice,
  load_from_serialized,
}
use replicat.Kv.{kv_put, kv_get}
use replicat.Raft.{System, StateMachine, create_snapshot_err, vote_key}
use replicat.Raft.Store.{get_and_inc_snapshot_index, count_snapshot}
use replicat.Raft.Log.Writes.{log_tables}
use replicat.Raft.Machine.{
  apply_to_state_machine, apply_entry, apply_payload, set_last_applied_log, set_last_membership,
  execute_request, last_applied_state,
}
use replicat.Raft.Machine.Coherent.{Matches}
use replicat.Raft.Open.{create_state_machine}
use replicat.Raft.Snapshots.{
  Meta, Snapshot, build_snapshot, get_current_snapshot, install_snapshot, write_snapshot_meta,
  get_snapshot_meta, write_snapshot_file, store_snapshot, create_snapshot, snapshot_id_of,
}
use replicat.Raft.Snapshots.Build.{build_snapshot-get_current_snapshot}
use replicat.Raft.Snapshots.Install.{
  install_snapshot-stale, install_snapshot-shared, install_snapshot-empty,
}
use replicat.Tests.Data.{id, two_entries, data_handle, empty_system, shared_system}
use replicat.Prelude.Decimal.{decimal}

-- a state machine with two entries applied
abbrev pub source : System memory
source = (apply_to_state_machine memory two_entries empty_system).1

abbrev pub meta : Meta memory
meta = record {
  last_log_id = some (id 2);
  last_membership = (some (id 2), 5);
  snapshot_id = "n-2-0";
}

abbrev bytes_in : Result StorageError (Snapshot memory) → Bytes
bytes_in (ok snap) = snap.snapshot
bytes_in (err _) = []

-- what `build_snapshot` of it returns
abbrev pub built : Snapshot memory
built = record { meta = meta; snapshot = bytes_in (build_snapshot memory source).0 }

-- the same with a file from before
abbrev source_again : System memory
source_again = record source { world = record source.world { disk = λ _. some (1 ∷ 2 ∷ []) } }

build_snapshot-get_current_snapshot_example :
    some built
    ≡ some (record {
      meta = meta;
      snapshot = overlay built.snapshot (source.world.disk source.raft.snapshot_path);
    })
unfolding apply_to_state_machine apply_entry apply_payload set_last_applied_log set_last_membership
    execute_request kv_put execute_or execute meaning kv_get fetch_one build_snapshot
    create_snapshot store_snapshot write_snapshot_file write_snapshot_meta
    get_and_inc_snapshot_index count_snapshot serialize serialize_db submit_task snapshot_id_of
    decimal get_current_snapshot get_snapshot_meta
build_snapshot-get_current_snapshot_example =
    build_snapshot-get_current_snapshot memory memory-IsFaithful source built (some built) refl
      (λ e. ground arith) refl

-- A file that is longer than the snapshot keeps its end.
short_snapshot_keeps_the_end : overlay (1 ∷ 2 ∷ []) (some (7 ∷ 8 ∷ 9 ∷ [])) ≡ 1 ∷ 2 ∷ 9 ∷ []
short_snapshot_keeps_the_end = refl

abbrev pub installed : System memory
installed = (install_snapshot memory meta built.snapshot empty_system).1

pub installed_ok : (install_snapshot memory meta built.snapshot empty_system).0 ≡ ok tt
unfolding apply_to_state_machine apply_entry apply_payload set_last_applied_log set_last_membership
    execute_request kv_put execute_or execute meaning kv_get fetch_one build_snapshot
    create_snapshot store_snapshot write_snapshot_file write_snapshot_meta
    get_and_inc_snapshot_index count_snapshot serialize serialize_db submit_task snapshot_id_of
    decimal install_snapshot from_slice load_from_serialized deserialize_db
installed_ok = refl

source-Matches : Matches source.raft.state_machine (memory.image_tables built.snapshot)
unfolding apply_to_state_machine apply_entry apply_payload set_last_applied_log set_last_membership
    execute_request kv_put execute_or execute meaning kv_get fetch_one build_snapshot
    create_snapshot store_snapshot write_snapshot_file write_snapshot_meta
    get_and_inc_snapshot_index count_snapshot serialize serialize_db submit_task snapshot_id_of
    decimal
source-Matches = record {
  applied = (1 ∷ 7 ∷ 2 ∷ [], refl, refl);
  effective = inr (5 ∷ 1 ∷ 7 ∷ 2 ∷ [], refl, refl);
}

abbrev pub restarted : StateMachine memory
restarted = record {
  last_applied_log = some (id 2);
  last_membership = (some (id 2), 5);
  data' = data_handle;
}

pub restarted_ok :
    (create_state_machine memory installed.raft.state_machine.data' installed.world).0
    ≡ ok restarted
unfolding apply_to_state_machine apply_entry apply_payload set_last_applied_log set_last_membership
    execute_request kv_put execute_or execute meaning kv_get fetch_one build_snapshot
    create_snapshot store_snapshot write_snapshot_file write_snapshot_meta
    get_and_inc_snapshot_index count_snapshot serialize serialize_db submit_task snapshot_id_of
    decimal install_snapshot from_slice load_from_serialized deserialize_db create_state_machine
restarted_ok = refl

install_snapshot-stale_example :
    ((last_applied_state memory installed).0 ≡ ok (none, (none, 0)))
    × (restarted.last_applied_log ≡ source.raft.state_machine.last_applied_log)
    × (restarted.last_membership ≡ source.raft.state_machine.last_membership)
install_snapshot-stale_example =
    install_snapshot-stale memory memory-IsFaithful meta built.snapshot empty_system
      source.raft.state_machine restarted source-Matches installed_ok restarted_ok

abbrev shared_after : System memory
shared_after = (install_snapshot memory meta built.snapshot shared_system).1

shared_ok : (install_snapshot memory meta built.snapshot shared_system).0 ≡ ok tt
unfolding apply_to_state_machine apply_entry apply_payload set_last_applied_log set_last_membership
    execute_request kv_put execute_or execute meaning kv_get fetch_one build_snapshot
    create_snapshot store_snapshot write_snapshot_file write_snapshot_meta
    get_and_inc_snapshot_index count_snapshot serialize serialize_db submit_task snapshot_id_of
    decimal install_snapshot from_slice load_from_serialized deserialize_db
shared_ok = refl

install_snapshot-shared_example :
    ((log_tables shared_after).logs ≡ (memory.image_tables built.snapshot).logs)
    × ((log_tables shared_after).kv vote_key ≡ (memory.image_tables built.snapshot).kv vote_key)
install_snapshot-shared_example =
    install_snapshot-shared memory memory-IsFaithful meta built.snapshot shared_system refl
      shared_ok

install_snapshot-empty_example :
    install_snapshot memory meta [] empty_system ≡ (err create_snapshot_err, empty_system)
install_snapshot-empty_example = install_snapshot-empty memory memory-IsFaithful meta empty_system

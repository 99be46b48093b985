-- ===== src/Tests/Tasks.antt =====
-- Entries that are applied while a snapshot is built.
use replicat.Prelude.{ℕ, ◌≡◌, ◌≢◌, refl, arith, inl, none, some, List, [], ◌∷◌}
use replicat.Prelude.Decimal.{decimal}
use replicat.Exec.{ok}
use replicat.Openraft.{Entry, normal, Request}
use replicat.Sql.{Bytes}
use replicat.Sql.Tables.{meaning}
use replicat.Env.Memory.{memory, memory-IsFaithful}
use replicat.Handle.{
  execute_or, execute, fetch_one, submit_task, serialize_db, deserialize_db, from_slice,
  load_from_serialized,
}
use replicat.Kv.{kv_put, kv_get}
use replicat.Raft.{System, StateMachine}
use replicat.Raft.Store.{count_snapshot}
use replicat.Raft.Machine.{execute_request}
use replicat.Raft.Machine.Coherent.{IsCoherent, data_tables}
use replicat.Raft.Open.{create_state_machine}
use replicat.Raft.Snapshots.{
  Snapshot, install_snapshot, write_snapshot_meta, write_snapshot_file, store_snapshot,
  snapshot_id_of,
}
use replicat.Raft.Tasks.{
  Builder, built, executes, Tasks, Turn, applying, building, run, move, applier_move, builder_move,
  execute_payload,
}
use replicat.Raft.Tasks.Applying.{Ascending, durable}
use replicat.Raft.Tasks.Stopped.{run-stopped}
use replicat.Raft.Tasks.Ordered.{begun, IsNotBehind, snapshot-IsNotBehind}
use replicat.Raft.Tasks.Unexecuted.{between, unexecuted-restart}
use replicat.Tests.Data.{id, two_entries, data_handle, empty_system}

-- the first entry is applied, its id is read, and the second is applied before the database is
-- serialized
abbrev turns : List Turn
turns =
    applying ∷ applying ∷ applying ∷ building ∷ building ∷ applying ∷ building ∷ applying ∷ building
    ∷ applying ∷ building ∷ applying ∷ building ∷ building ∷ building ∷ applying ∷ []

abbrev ended : Tasks memory
ended = run memory turns (begun memory memory-IsFaithful empty_system two_entries)

abbrev bytes_in : Builder memory → Bytes
bytes_in (built (ok snap)) = snap.snapshot
bytes_in _ = []

abbrev late : Snapshot memory
late = record {
  meta = record { last_log_id = some (id 1); last_membership = (none, 0); snapshot_id = "n-1-0" };
  snapshot = bytes_in ended.builder;
}

late_ok : ended.builder ≡ built (ok late)
unfolding run move applier_move builder_move execute_payload execute_request kv_put execute_or
    execute meaning kv_get fetch_one store_snapshot write_snapshot_file write_snapshot_meta
    count_snapshot serialize_db submit_task snapshot_id_of decimal
late_ok = refl

late_full : ◌≢◌ late.snapshot []
unfolding run move applier_move builder_move execute_payload execute_request kv_put execute_or
    execute meaning kv_get fetch_one store_snapshot write_snapshot_file write_snapshot_meta
    count_snapshot serialize_db submit_task snapshot_id_of decimal
late_full e = ground arith

one_not_zero : ◌≢◌ {A = ℕ} 1 0
one_not_zero e = omega (arith, e)

empty_system-IsCoherent : IsCoherent empty_system
empty_system-IsCoherent = record { applied = refl; effective = inl (refl, refl) }

two_entries-Ascending : Ascending none two_entries
two_entries-Ascending = (tt, (omega arith, tt))

-- The tables hold the id of the second entry, and the metadata names the first.
snapshot-IsNotBehind_example : IsNotBehind memory late.meta late.snapshot
snapshot-IsNotBehind_example =
    snapshot-IsNotBehind memory memory-IsFaithful turns empty_system two_entries one_not_zero
      empty_system-IsCoherent two_entries-Ascending (tt, (tt, tt)) late late_ok late_full

-- stopped when the second entry's membership is stored, and not yet in memory
abbrev stopped_turns : List Turn
stopped_turns =
    applying ∷ applying ∷ applying ∷ building ∷ building ∷ applying ∷ building ∷ applying ∷ building
    ∷ applying ∷ []

abbrev stopped : Tasks memory
stopped = run memory stopped_turns (begun memory memory-IsFaithful empty_system two_entries)

abbrev machine : StateMachine memory
machine = record {
  last_applied_log = some (id 2);
  last_membership = (some (id 2), 5);
  data' = data_handle;
}

stopped_before : stopped.system.raft.state_machine.last_membership ≡ (none, 0)
unfolding run move applier_move builder_move execute_payload kv_put execute_or execute meaning
    kv_get fetch_one count_snapshot write_snapshot_meta submit_task snapshot_id_of decimal
stopped_before = refl

machine_ok :
    (create_state_machine memory stopped.system.raft.state_machine.data' stopped.system.world).0
    ≡ ok machine
unfolding run move applier_move builder_move execute_payload execute_request kv_put execute_or
    execute meaning kv_get fetch_one store_snapshot write_snapshot_file write_snapshot_meta
    count_snapshot serialize_db submit_task snapshot_id_of decimal create_state_machine
machine_ok = refl

run-stopped_example :
    let left = durable memory stopped.system.raft.state_machine stopped.applier in
    (machine.last_applied_log ≡ left.last_applied_log)
    × (machine.last_membership ≡ left.last_membership)
run-stopped_example =
    run-stopped memory memory-IsFaithful stopped_turns empty_system two_entries one_not_zero
      empty_system-IsCoherent two_entries-Ascending (tt, (tt, tt)) machine machine_ok

-- the statement of this entry is lost
abbrev insert : Entry ℕ
insert = record { log_id = id 1; payload = normal (Request.execute "INSERT INTO t VALUES (1)" []) }

abbrev torn : Tasks memory
torn = between memory memory-IsFaithful empty_system insert []

abbrev early : Snapshot memory
early = record {
  meta = record { last_log_id = some (id 1); last_membership = (none, 0); snapshot_id = "n-1-0" };
  snapshot = bytes_in torn.builder;
}

abbrev received : System memory
received = (install_snapshot memory early.meta early.snapshot empty_system).1

abbrev mistaken : StateMachine memory
mistaken = record {
  last_applied_log = some (id 1);
  last_membership = (none, 0);
  data' = data_handle;
}

unexecuted-restart_example :
    (torn.applier ≡ executes insert [] [])
    × (data_tables received ≡ data_tables torn.system)
    × (mistaken.last_applied_log ≡ some (id 1))
unfolding run move applier_move builder_move execute_payload execute_request kv_put execute_or
    execute meaning kv_get fetch_one store_snapshot write_snapshot_file write_snapshot_meta
    count_snapshot serialize_db submit_task snapshot_id_of decimal create_state_machine
    install_snapshot from_slice deserialize_db load_from_serialized
unexecuted-restart_example =
    unexecuted-restart memory memory-IsFaithful empty_system insert [] early empty_system mistaken
      one_not_zero empty_system-IsCoherent refl refl (λ e. ground arith) refl refl

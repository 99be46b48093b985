-- ===== src/Tests/Transfer.antt =====
-- A snapshot that goes from one node to another.
use replicat.Prelude.{ℕ, ◌≡◌, ◌≢◌, refl, arith, inr, [], ◌∷◌}
use replicat.Exec.{ok}
use replicat.Sql.Tables.{meaning}
use replicat.Env.Memory.{memory, memory-IsFaithful}
use replicat.Handle.{execute_or, execute, fetch_one, submit_task, serialize_db, serialize}
use replicat.Kv.{kv_put, kv_get}
use replicat.Raft.Store.{get_and_inc_snapshot_index, count_snapshot}
use replicat.Raft.Machine.{
  apply_to_state_machine, apply_entry, apply_payload, set_last_applied_log, set_last_membership,
  execute_request,
}
use replicat.Raft.Machine.Coherent.{IsCoherent}
use replicat.Raft.Snapshots.{
  build_snapshot, write_snapshot_meta, write_snapshot_file, store_snapshot, create_snapshot,
  snapshot_id_of,
}
use replicat.Raft.Snapshots.Transfer.{transfer-restart}
use replicat.Tests.Data.{empty_system}
use replicat.Tests.Snapshots.{source, meta, built, installed_ok, restarted, restarted_ok}
use replicat.Prelude.Decimal.{decimal}

built_ok : (build_snapshot memory source).0 ≡ ok built
unfolding apply_to_state_machine apply_entry apply_payload set_last_applied_log set_last_membership
    execute_request kv_put execute_or execute meaning kv_get fetch_one build_snapshot
    create_snapshot store_snapshot write_snapshot_file write_snapshot_meta
    get_and_inc_snapshot_index count_snapshot serialize serialize_db submit_task snapshot_id_of
    decimal
built_ok = refl

built_full : ◌≢◌ built.snapshot []
unfolding apply_to_state_machine apply_entry apply_payload set_last_applied_log set_last_membership
    execute_request kv_put execute_or execute meaning kv_get fetch_one build_snapshot
    create_snapshot store_snapshot write_snapshot_file write_snapshot_meta
    get_and_inc_snapshot_index count_snapshot serialize serialize_db submit_task snapshot_id_of
    decimal
built_full e = ground arith

source-IsCoherent : IsCoherent source
unfolding apply_to_state_machine apply_entry apply_payload set_last_applied_log set_last_membership
    execute_request kv_put execute_or execute meaning kv_get fetch_one build_snapshot
    create_snapshot store_snapshot write_snapshot_file write_snapshot_meta
    get_and_inc_snapshot_index count_snapshot serialize serialize_db submit_task snapshot_id_of
    decimal
source-IsCoherent = record {
  applied = (1 ∷ 7 ∷ 2 ∷ [], refl, refl);
  effective = inr (5 ∷ 1 ∷ 7 ∷ 2 ∷ [], refl, refl);
}

one_not_zero : ◌≢◌ {A = ℕ} 1 0
one_not_zero e = omega (arith, e)

apart : source.raft.state_machine.data'.tx ≢ source.raft.log.tx
unfolding apply_to_state_machine apply_entry apply_payload set_last_applied_log set_last_membership
    execute_request kv_put execute_or execute meaning kv_get fetch_one build_snapshot
    create_snapshot store_snapshot write_snapshot_file write_snapshot_meta
    get_and_inc_snapshot_index count_snapshot serialize serialize_db submit_task snapshot_id_of
    decimal
apart = one_not_zero

transfer-restart_example :
    (meta.last_log_id ≡ source.raft.state_machine.last_applied_log)
    × (meta.last_membership ≡ source.raft.state_machine.last_membership)
    × (restarted.last_applied_log ≡ source.raft.state_machine.last_applied_log)
    × (restarted.last_membership ≡ source.raft.state_machine.last_membership)
unfolding apply_to_state_machine apply_entry apply_payload set_last_applied_log set_last_membership
    execute_request kv_put execute_or execute
transfer-restart_example =
    transfer-restart memory memory-IsFaithful source empty_system built restarted apart
      source-IsCoherent built_ok built_full installed_ok restarted_ok

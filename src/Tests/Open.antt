-- ===== src/Tests/Open.antt =====
-- A store that is opened again, on the files of a log that was purged and of a state machine.
use replicat.Prelude.{◌≡◌, refl, inr, Option, none, some, [], ◌∷◌, str_eq, if◌then◌else◌}
use replicat.Exec.{Result, ok}
use replicat.Openraft.{LogId, LogState}
use replicat.Sql.{Bytes}
use replicat.Sql.Tables.{no_tables, meaning}
use replicat.Env.{Env, SqlError, FilePath}
use replicat.Env.Memory.{memory, memory_on, memory_on-IsFaithful}
use replicat.Handle.{World, execute_or, execute, fetch_one, open_handle}
use replicat.Kv.{kv_put, kv_get}
use replicat.Kv.Effects.{Keeps}
use replicat.Raft.{System, RaftStore, last_purged_id_key}
use replicat.Raft.Store.{set_last_purged_log_id}
use replicat.Raft.Log.{append_to_log, purge_logs_upto, get_log_state, or_else}
use replicat.Raft.Log.Abstract.{Encodes, last_id}
use replicat.Raft.Log.Writes.{Refines}
use replicat.Raft.Machine.{
  apply_to_state_machine, apply_entry, apply_payload, set_last_applied_log, set_last_membership,
  execute_request, last_applied_state,
}
use replicat.Raft.Machine.Coherent.{Matches, IsCoherent}
use replicat.Raft.Open.{
  open_store, open_with_mem_state, open_data, setup_log_store, create_state_machine,
}
use replicat.Raft.Open.Handles.{Placed}
use replicat.Raft.Open.Reopened.{open_store-reopens}
use replicat.Raft.Open.InMemory.{open_with_mem_state-forgets}
use replicat.Raft.Snapshots.{Snapshot, get_current_snapshot}
use replicat.Tests.Data.{carried, id, second_entry, two_entries, empty_system}
use replicat.Tests.Log.{appended}

abbrev log_file : Bytes
log_file = (purge_logs_upto memory (id 1) appended).1.world.conns 0

abbrev data_file : Bytes
data_file = (apply_to_state_machine memory two_entries empty_system).1.world.conns 1

abbrev files : FilePath → Result SqlError Bytes
files path =
    if str_eq path "/db/log.db"
    then ok log_file
    else if str_eq path "/db/data.db"
    then ok data_file
    else ok []

abbrev on_files : Env
on_files = memory_on files

abbrev fresh_world : World on_files
fresh_world = record { conns = λ _. []; spawned = 0; disk = λ _. none }

abbrev reopened : RaftStore on_files
reopened = record {
  log = record { tx = 0 };
  state_machine = record {
    last_applied_log = some (id 2);
    last_membership = (some (id 2), 5);
    data' = record { tx = 1 };
  };
  snapshot_path = "/db/snapshot.db";
}

abbrev forgotten : RaftStore on_files
forgotten = record reopened {
  state_machine = record {
    last_applied_log = none;
    last_membership = (none, 0);
    data' = record { tx = 1 };
  };
}

open_store_ok : (open_store on_files "/db" (some "/db/data.db") fresh_world).0 ≡ ok reopened
unfolding open_store open_data setup_log_store create_state_machine open_handle kv_put kv_get
    execute_or execute fetch_one meaning apply_to_state_machine apply_entry apply_payload
    set_last_applied_log set_last_membership execute_request append_to_log purge_logs_upto
    set_last_purged_log_id
open_store_ok = refl

open_with_mem_state_ok : (open_with_mem_state on_files "/db" fresh_world).0 ≡ ok forgotten
unfolding open_with_mem_state open_store open_data setup_log_store create_state_machine open_handle
    kv_put kv_get execute_or execute fetch_one meaning apply_to_state_machine apply_entry
    apply_payload set_last_applied_log set_last_membership execute_request append_to_log
    purge_logs_upto set_last_purged_log_id
open_with_mem_state_ok = refl

log_file-Encodes : Encodes on_files (on_files.tables log_file).logs (second_entry ∷ [])
unfolding append_to_log purge_logs_upto set_last_purged_log_id kv_put execute_or execute meaning
log_file-Encodes = (record { node_id = refl; log_index = refl; term = refl; entry = refl }, tt)

log_file-Keeps :
    Keeps on_files.log_id_codec ((on_files.tables log_file).kv last_purged_id_key) (some (id 1))
unfolding append_to_log purge_logs_upto set_last_purged_log_id kv_put execute_or execute meaning
log_file-Keeps = (_, refl, refl)

data_file-Matches : Matches reopened.state_machine (on_files.tables data_file)
unfolding apply_to_state_machine apply_entry apply_payload set_last_applied_log set_last_membership
    execute_request kv_put execute_or execute meaning
data_file-Matches = record { applied = (_, refl, refl); effective = inr (_, refl, refl) }

open_store-reopens_example :
    let s : System on_files = record {
      raft = reopened;
      world = (open_store on_files "/db" (some "/db/data.db") fresh_world).1;
    } in
    (◌≡◌ {A = Option LogId} (some (id 2)) (some (id 2)))
    × (◌≡◌ {A = on_files.EffectiveMembership} (some (id 2), 5) (some (id 2), 5))
    × IsCoherent s
    × Refines s (second_entry ∷ [])
    × Placed {env = on_files} (some "/db/data.db") reopened
open_store-reopens_example =
    open_store-reopens on_files (memory_on-IsFaithful files) "/db" (some "/db/data.db") fresh_world
      reopened reopened.state_machine (second_entry ∷ [])
      (λ c e.
        carried (λ x. Encodes on_files (on_files.tables x).logs (second_entry ∷ [])) log_file c e
          log_file-Encodes)
      (λ c e.
        carried (λ x. Matches reopened.state_machine (on_files.tables x)) data_file c e
          data_file-Matches)
      open_store_ok

-- the first entry is neither in the log nor in the state, and there is no snapshot of it
open_with_mem_state-forgets_example :
    let s : System on_files = record {
      raft = forgotten;
      world = (open_with_mem_state on_files "/db" fresh_world).1;
    } in
    ((last_applied_state on_files s).0 ≡ ok (none, (none, 0)))
    × ((snap : Option (Snapshot on_files))
        → (get_current_snapshot on_files s).0 ≡ ok snap
        → snap ≡ none)
    × ((st : LogState)
        → (get_log_state on_files s).0 ≡ ok st
        → (st.last_purged_log_id ≡ some (id 1))
          × (st.last_log_id ≡ or_else on_files (last_id (second_entry ∷ [])) (some (id 1))))
open_with_mem_state-forgets_example =
    open_with_mem_state-forgets on_files (memory_on-IsFaithful files) "/db" fresh_world forgotten
      (second_entry ∷ []) (some (id 1))
      (λ c e. carried (λ x. on_files.tables x ≡ no_tables) [] c e refl)
      (λ c e.
        carried
          (λ x.
            Encodes on_files (on_files.tables x).logs (second_entry ∷ [])
            × Keeps on_files.log_id_codec ((on_files.tables x).kv last_purged_id_key) (some (id 1)))
          log_file c e (log_file-Encodes, log_file-Keeps))
      open_with_mem_state_ok

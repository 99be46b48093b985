-- ===== src/Raft/Calls.antt =====
-- The calls that openraft makes on the store of src/storage/raft.rs, in any order.
pub mod Elsewhere
pub mod Handles
pub mod Settled
pub mod Builds
pub mod Coherent
pub mod Durable
pub mod Lives
use replicat.Prelude.{List}
use replicat.Openraft.{LogId, Vote, Entry}
use replicat.Env.{Env}
use replicat.Raft.{System}
use replicat.Raft.Store.{save_vote, read_vote}
use replicat.Raft.Log.{
  Range, append_to_log, delete_conflict_logs_since, purge_logs_upto, get_log_state,
  try_get_log_entries,
}
use replicat.Raft.Machine.{apply_to_state_machine, last_applied_state}
use replicat.Raft.Machine.Coherent.{AllHarmless}
use replicat.Raft.Snapshots.{build_snapshot, get_current_snapshot, begin_receiving_snapshot}

-- A call, from a store to the store that it leaves, whether it succeeds or fails: all but
-- `install_snapshot`. No client statement that is applied writes the two keys of the state machine.
pub data Called (env : Env) : System env → System env → Type 0 where
  saves_vote : {s : System env} (vote : Vote) → Called env s (save_vote env vote s).1
  reads_vote : {s : System env} → Called env s (read_vote env s).1
  appends :
      {s : System env} (es : List (Entry env.Membership)) → Called env s (append_to_log env es s).1
  deletes : {s : System env} (id : LogId) → Called env s (delete_conflict_logs_since env id s).1
  purges : {s : System env} (id : LogId) → Called env s (purge_logs_upto env id s).1
  reads_state : {s : System env} → Called env s (get_log_state env s).1
  reads_log : {s : System env} (range : Range) → Called env s (try_get_log_entries env range s).1
  applies :
      {s : System env} (es : List (Entry env.Membership))
      → AllHarmless env es
      → Called env s (apply_to_state_machine env es s).1
  reads_applied : {s : System env} → Called env s (last_applied_state env s).1
  builds : {s : System env} → Called env s (build_snapshot env s).1
  reads_snapshot : {s : System env} → Called env s (get_current_snapshot env s).1
  begins : {s : System env} → Called env s (begin_receiving_snapshot env s).1

pub data Calls (env : Env) : System env → System env → Type 0 where
  none_made : {s : System env} → Calls env s s
  one_more : {s s1 s2 : System env} → Called env s s1 → Calls env s1 s2 → Calls env s s2

-- ===== src/Raft/Machine.antt =====
-- `StateMachine` and `apply_to_state_machine` of src/storage/raft.rs.
pub mod Coherent
pub mod Applied
pub mod Restart
use replicat.Prelude.{ℕ, String, Option, none, some, List, [], ◌∷◌, map}
use replicat.Exec.{Exec, pure, modify, gets, with_err, ◌>>=◌, ◌>>◌}
use replicat.Params.{TransportableParam, to_sql}
use replicat.Openraft.{LogId, Request, Response, EntryPayload, blank, normal, membership, Entry}
use replicat.Sql.{Param, value, client}
use replicat.Env.{Env}
use replicat.Handle.{execute_or}
use replicat.Kv.{kv_put}
use replicat.Raft.{
  System, RaftStore, StateMachine, Storage, on_world, last_log_key, last_membership_key,
  store_write_error,
}

module _ (env : Env) where
  open env use {Membership, EffectiveMembership, log_id_codec, membership_codec, effective_new}

  -- a write through one of the locks of the state machine
  abbrev pub in_machine : (StateMachine env → StateMachine env) → System env → System env
  in_machine f s = record s { raft = record s.raft { state_machine = f s.raft.state_machine } }

  abbrev last_applied_log : System env → Option LogId
  last_applied_log s = s.raft.state_machine.last_applied_log

  -- the database first, then the value in memory
  unfoldable pub set_last_applied_log : LogId → Storage env Unit
  set_last_applied_log log = do
    (λ s.
        on_world
          (kv_put env log_id_codec store_write_error s.raft.state_machine.data' last_log_key log) s)
    modify (in_machine λ m. record m { last_applied_log = some log })

  unfoldable pub set_last_membership : EffectiveMembership → Storage env Unit
  set_last_membership effective = do
    (λ s.
        on_world
          (kv_put env membership_codec store_write_error s.raft.state_machine.data'
            last_membership_key effective)
          s)
    modify (in_machine λ m. record m { last_membership = effective })

  abbrev pub bound : List TransportableParam → List Param
  bound = map (λ p. value (to_sql p))

  -- a client's statement, on the live data
  unfoldable pub execute_request : Request → Storage env Unit
  unfolding to_sql
  execute_request (Request.execute sql params) s =
      on_world
        (execute_or env store_write_error s.raft.state_machine.data' (client sql) (bound params)) s

  unfoldable pub apply_payload : LogId → EntryPayload Membership → Storage env Response
  apply_payload log_id blank = pure (record {})
  apply_payload log_id (normal req) = execute_request req >> pure (record {})
  apply_payload log_id (membership mem) =
      set_last_membership (effective_new (some log_id) mem) >> pure (record {})

  -- one round of the loop in `apply_to_state_machine`
  unfoldable pub apply_entry : Entry Membership → Storage env Response
  apply_entry entry = set_last_applied_log entry.log_id >> apply_payload entry.log_id entry.payload

  unfoldable pub apply_to_state_machine : List (Entry Membership) → Storage env (List Response)
  apply_to_state_machine [] = pure []
  apply_to_state_machine (entry ∷ entries) = do
    r ← apply_entry entry
    res ← apply_to_state_machine entries
    pure (r ∷ res)

  unfoldable pub last_applied_state : Storage env (Option LogId × EffectiveMembership)
  last_applied_state =
      gets λ s. (s.raft.state_machine.last_applied_log, s.raft.state_machine.last_membership)

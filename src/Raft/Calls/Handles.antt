-- ===== src/Raft/Calls/Handles.antt =====
-- `apply_to_state_machine` keeps the handles of the store.
use replicat.Prelude.{◌≡◌, arith, some, List, [], ◌∷◌}
use replicat.Exec.{pure, ◌>>=◌, >>=-keeps}
use replicat.Openraft.{LogId, Entry, EntryPayload, Request, blank, normal, membership}
use replicat.Env.{Env}
use replicat.Handle.{StorageHandle}
use replicat.Raft.{System}
use replicat.Raft.Machine.{
  set_last_applied_log, set_last_membership, execute_request, apply_payload, apply_entry,
  apply_to_state_machine,
}

module _ (env : Env) (log data' : StorageHandle) where
  open env use {Membership}

  -- the handles of the log and of the live data
  abbrev pub HasHandles : System env → Type 0
  HasHandles s = (s.raft.log ≡ log) × (s.raft.state_machine.data' ≡ data')

  set_last_applied_log-HasHandles :
      (id : LogId) (s : System env) → HasHandles s → HasHandles (set_last_applied_log env id s).1
  unfolding set_last_applied_log
  set_last_applied_log-HasHandles id s (l, d) = (ground (arith, l), ground (arith, d))

  set_last_membership-HasHandles :
      (m : env.EffectiveMembership) (s : System env)
      → HasHandles s
      → HasHandles (set_last_membership env m s).1
  unfolding set_last_membership
  set_last_membership-HasHandles m s (l, d) = (ground (arith, l), ground (arith, d))

  apply_payload-HasHandles :
      (id : LogId) (p : EntryPayload Membership) (s : System env)
      → HasHandles s
      → HasHandles (apply_payload env id p s).1
  unfolding apply_payload execute_request
  apply_payload-HasHandles id blank s k = k
  apply_payload-HasHandles id (normal (Request.execute sql params)) s k =
      >>=-keeps HasHandles (execute_request env (Request.execute sql params))
        (λ _. pure (record {})) s k (λ _ _. k)
  apply_payload-HasHandles id (membership m) s k =
      let set = set_last_membership env (env.effective_new (some id) m) in
      let after = set_last_membership-HasHandles (env.effective_new (some id) m) s k in
      >>=-keeps HasHandles set (λ _. pure (record {})) s after (λ _ _. after)

  apply_entry-HasHandles :
      (e : Entry Membership) (s : System env) → HasHandles s → HasHandles (apply_entry env e s).1
  unfolding apply_entry
  apply_entry-HasHandles e s k =
      let after = set_last_applied_log-HasHandles e.log_id s k in
      >>=-keeps HasHandles (set_last_applied_log env e.log_id)
        (λ _. apply_payload env e.log_id e.payload) s after
        (λ _ _. apply_payload-HasHandles e.log_id e.payload _ after)

  pub apply_to_state_machine-HasHandles :
      (es : List (Entry Membership)) (s : System env)
      → HasHandles s
      → HasHandles (apply_to_state_machine env es s).1
  unfolding apply_to_state_machine
  apply_to_state_machine-HasHandles [] s k = k
  apply_to_state_machine-HasHandles (e ∷ es) s k =
      let after = apply_entry-HasHandles e s k in
      let done = apply_to_state_machine-HasHandles es (apply_entry env e s).1 after in
      >>=-keeps HasHandles (apply_entry env e)
        (λ r. apply_to_state_machine env es >>= λ res. pure (r ∷ res)) s after
        λ r _.
          >>=-keeps HasHandles (apply_to_state_machine env es) (λ res. pure (r ∷ res))
            (apply_entry env e s).1 done (λ _ _. done)

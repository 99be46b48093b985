-- ===== src/Tests/Machine.antt =====
-- The state machine.
use replicat.Prelude.{ℕ, ◌≡◌, refl, inl, some, List, [], ◌∷◌}
use replicat.Exec.{err}
use replicat.Openraft.{Entry}
use replicat.Sql.Tables.{meaning}
use replicat.Env.Memory.{memory, memory-IsFaithful}
use replicat.Handle.{execute_or, execute, fetch_one}
use replicat.Kv.{kv_put, kv_get}
use replicat.Raft.{System, StateMachine, store_write_error}
use replicat.Raft.Machine.{
  apply_to_state_machine, apply_entry, apply_payload, set_last_applied_log, set_last_membership,
  execute_request,
}
use replicat.Raft.Machine.Coherent.{IsCoherent, AllHarmless, apply_to_state_machine-IsCoherent}
use replicat.Raft.Machine.Applied.{Applied, apply_to_state_machine-Applied}
use replicat.Raft.Machine.Restart.{restart-recovers}
use replicat.Raft.Open.{create_state_machine}
use replicat.Tests.Data.{
  id, first_entry, second_entry, request_entry, refused_entry, data_handle, empty_system,
}

abbrev pub three_entries : List (Entry ℕ)
three_entries = first_entry ∷ second_entry ∷ request_entry ∷ []

empty_system-IsCoherent : IsCoherent empty_system
empty_system-IsCoherent = record { applied = refl; effective = inl (refl, refl) }

three_entries-AllHarmless : AllHarmless memory three_entries
unfolding meaning
three_entries-AllHarmless = (tt, (tt, ((λ c. (refl, refl)), tt)))

abbrev pub applied : System memory
applied = (apply_to_state_machine memory three_entries empty_system).1

abbrev pub applied_machine : StateMachine memory
applied_machine = record {
  last_applied_log = some (id 3);
  last_membership = (some (id 2), 5);
  data' = data_handle;
}

applied_machine_held : applied.raft.state_machine ≡ applied_machine
unfolding apply_to_state_machine apply_entry apply_payload set_last_applied_log set_last_membership
    execute_request kv_put execute_or execute meaning
applied_machine_held = refl

-- A refused statement is an error of the store, and its entry counts as applied.
refused_is_applied :
    (apply_to_state_machine memory (refused_entry ∷ []) empty_system).0 ≡ err store_write_error
unfolding apply_to_state_machine apply_entry apply_payload set_last_applied_log execute_request
    kv_put execute_or execute meaning
refused_is_applied = refl

apply_to_state_machine-IsCoherent_example : IsCoherent applied
apply_to_state_machine-IsCoherent_example =
    apply_to_state_machine-IsCoherent memory memory-IsFaithful three_entries empty_system
      three_entries-AllHarmless empty_system-IsCoherent

apply_to_state_machine-Applied_example :
    let (r, s') = apply_to_state_machine memory (second_entry ∷ refused_entry ∷ []) empty_system in
    Applied memory
      (second_entry ∷ refused_entry ∷ [])
      empty_system.raft.state_machine
      s'.raft.state_machine
      r
apply_to_state_machine-Applied_example =
    apply_to_state_machine-Applied memory (second_entry ∷ refused_entry ∷ []) empty_system

restart-recovers_example :
    (applied_machine.last_applied_log ≡ applied.raft.state_machine.last_applied_log)
    × (applied_machine.last_membership ≡ applied.raft.state_machine.last_membership)
unfolding apply_to_state_machine apply_entry apply_payload set_last_applied_log set_last_membership
    execute_request kv_put execute_or execute meaning create_state_machine kv_get fetch_one
restart-recovers_example =
    restart-recovers memory memory-IsFaithful three_entries empty_system applied_machine
      three_entries-AllHarmless empty_system-IsCoherent refl

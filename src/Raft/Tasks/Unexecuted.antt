-- ===== src/Raft/Tasks/Unexecuted.antt =====
-- A snapshot that is built while the payload of an entry has not been executed yet.
use replicat.Prelude.{◌≡◌, ◌≢◌, sym, ap, subst, ◌∙◌, arith, some, List, [], ◌∷◌}
use replicat.Exec.{ok, Result}
use replicat.Openraft.{Entry, StorageError}
use replicat.Env.{Env, IsFaithful}
use replicat.Raft.{System, StateMachine}
use replicat.Raft.Open.{create_state_machine}
use replicat.Raft.Machine.{in_machine, set_last_applied_log}
use replicat.Raft.Machine.Coherent.{data_tables, IsCoherent, set_last_applied_log-IsCoherent}
use replicat.Raft.Snapshots.{Snapshot, build_snapshot, install_snapshot}
use replicat.Raft.Snapshots.Transfer.{transfer-tables, transfer-restart}
use replicat.Raft.Tasks.{
  executes, built, starts, put_last_applied, applier_move, Tasks, applying, move, run,
}
use replicat.Raft.Tasks.Alone.{building_turns, run-build_snapshot}
use replicat.Raft.Tasks.Ordered.{begun}

module _ (env : Env) (law : IsFaithful env) (s : System env) (e : Entry env.Membership)
    (es : List (Entry env.Membership)) where
  -- after the id of the entry is stored, and before its payload
  abbrev named : System env
  named =
      in_machine env (λ m. record m { last_applied_log = some e.log_id })
        (put_last_applied env e.log_id s).1

  abbrev pub between : Tasks env
  between = run env (applying ∷ applying ∷ building_turns) (begun env law s (e ∷ es))

  named_lem :
      (put_last_applied env e.log_id s).0 ≡ ok tt
      → set_last_applied_log env e.log_id s ≡ (ok tt, named)
  unfolding set_last_applied_log
  named_lem o = ground (arith, o)

  two_moves :
      (put_last_applied env e.log_id s).0 ≡ ok tt
      → between
        ≡ run env building_turns
            (record { system = named; applier = executes e es []; builder = starts })
  unfolding run move applier_move
  two_moves o = ground (arith, o)

  between_lem :
      (put_last_applied env e.log_id s).0 ≡ ok tt
      → between ≡ record {
        system = (build_snapshot env named).1;
        applier = executes e es [];
        builder = built (build_snapshot env named).0;
      }
  between_lem o = two_moves o ∙ run-build_snapshot env named (executes e es [])

  built-eq : (r r' : Result StorageError (Snapshot env)) → built r ≡ built r' → r ≡ r'
  built-eq r r' h = ground (arith, h)

  -- The id of an entry is stored, a snapshot is built, and the payload of the entry is still to be
  -- executed. Where the first write and all calls on the snapshot succeed, another node that installs
  -- it has the tables of the first, and after a restart takes the entry for applied, if memory and
  -- database of the first agreed, and the database is not the log's.
  pub unexecuted-restart :
      (snap : Snapshot env) (b : System env) (m : StateMachine env)
      → s.raft.state_machine.data'.tx ≢ s.raft.log.tx
      → IsCoherent s
      → (put_last_applied env e.log_id s).0 ≡ ok tt
      → between.builder ≡ built (ok snap)
      → snap.snapshot ≢ []
      → (install_snapshot env snap.meta snap.snapshot b).0 ≡ ok tt
      → let b' = (install_snapshot env snap.meta snap.snapshot b).1 in
        (create_state_machine env b'.raft.state_machine.data' b'.world).0 ≡ ok m
        → (between.applier ≡ executes e es [])
          × (data_tables b' ≡ data_tables between.system)
          × (m.last_applied_log ≡ some e.log_id)
  unexecuted-restart snap b m apart k o done full installed restarted =
      let all = between_lem o in
      let snapped : (build_snapshot env named).0 ≡ ok snap =
        built-eq _ _ (sym (ap (λ t. t.builder) all) ∙ done) in
      let coherent : IsCoherent named =
        subst (λ z. IsCoherent z.1) (named_lem o)
          (set_last_applied_log-IsCoherent env law e.log_id s k) in
      let (_, _, last, _) =
        transfer-restart env law named b snap m apart coherent snapped full installed restarted in
      (
        ap (λ t. t.applier) all,
        transfer-tables env law named b snap snapped full installed
            ∙ sym (ap (λ t. data_tables t.system) all),
        last,
      )

-- ===== src/Raft/Tasks/Stopped.antt =====
-- A store of src/storage/raft.rs that is stopped while entries are applied and a snapshot is built.
use replicat.Prelude.{◌≡◌, ◌≢◌, List}
use replicat.Exec.{ok, Result}
use replicat.Openraft.{Entry, Response, StorageError}
use replicat.Env.{Env, IsFaithful}
use replicat.Raft.{System, StateMachine}
use replicat.Raft.Open.{create_state_machine}
use replicat.Raft.Machine.Coherent.{data_tables, IsCoherent, AllHarmless}
use replicat.Raft.Machine.Restart.{create_state_machine-Matches}
use replicat.Raft.Tasks.{applied, Turn, run}
use replicat.Raft.Tasks.Applying.{Ascending, durable, Fits-Matches}
use replicat.Raft.Tasks.Ordered.{begun, begun-Ordered, run-Ordered}

module _ (env : Env) (law : IsFaithful env) (turns : List Turn) (s : System env)
    (es : List (Entry env.Membership)) (apart : s.raft.state_machine.data'.tx ≢ s.raft.log.tx)
    (k : IsCoherent s) (asc : Ascending s.raft.state_machine.last_applied_log es)
    (safe : AllHarmless env es) where
  -- While one task applies entries in the order of their ids, another builds a snapshot. A store that
  -- is stopped at any step of the two, and started again, finds the last applied id and the membership that were in memory, but for the one that a
  -- setter had stored and not yet written to memory, whose new
  -- value it finds, if memory and database agreed at first, the database is not the log's, and no
  -- client's statement writes the two.
  pub run-stopped :
      (m : StateMachine env)
      → let t = run env turns (begun env law s es) in
        let left = durable env t.system.raft.state_machine t.applier in
        (create_state_machine env t.system.raft.state_machine.data' t.system.world).0 ≡ ok m
        → (m.last_applied_log ≡ left.last_applied_log) × (m.last_membership ≡ left.last_membership)
  run-stopped m o =
      let t = run env turns (begun env law s es) in
      let machine = t.system.raft.state_machine in
      let fits =
        (run-Ordered env law turns (begun env law s es)
          (begun-Ordered env law turns s es apart k asc safe)).stands.fits in
      let (applied_same, membership_same, _) =
        create_state_machine-Matches env law machine.data' t.system.world
          (durable env machine t.applier) m
          (Fits-Matches env machine (data_tables t.system) t.applier fits) o in
      (applied_same, membership_same)

  -- Under the same conditions, however the task that applies entries has ended, and wherever the
  -- other one stands, a restart finds the last applied id and the membership that are in memory.
  pub run-recovers :
      (r : Result StorageError (List Response)) (m : StateMachine env)
      → let t = run env turns (begun env law s es) in
        t.applier ≡ applied r
        → (create_state_machine env t.system.raft.state_machine.data' t.system.world).0 ≡ ok m
        → (m.last_applied_log ≡ t.system.raft.state_machine.last_applied_log)
          × (m.last_membership ≡ t.system.raft.state_machine.last_membership)
  run-recovers r m e o = rw e at run-stopped m o

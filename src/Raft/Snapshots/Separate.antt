-- ===== src/Raft/Snapshots/Separate.antt =====
-- `install_snapshot` and the databases of the other threads.
use replicat.Prelude.{ℕ, ◌≡◌, ◌≢◌, refl, ◌∙◌, arith}
use replicat.Exec.{Exec, with_err, lift, ◌>>◌, >>=-keeps}
use replicat.Openraft.{StorageError}
use replicat.Sql.{Bytes}
use replicat.Env.{Env}
use replicat.Handle.{
  StorageHandle, World, submit_task, from_slice, load_from_serialized, execute_or, execute,
}
use replicat.Handle.Effects.{views}
use replicat.Kv.{kv_put}
use replicat.Raft.{System, create_snapshot_err}
use replicat.Raft.Snapshots.{Meta, write_snapshot_meta, install_snapshot}

module _ (env : Env) where
  abbrev load : StorageHandle → Bytes → Exec (World env) StorageError Unit
  load h mem = with_err (λ _. create_snapshot_err) (load_from_serialized env h mem)

  abbrev mark : StorageHandle → Meta env → Exec (World env) StorageError Unit
  mark h meta = with_err (λ _. create_snapshot_err) (write_snapshot_meta env h meta)

  load-other :
      (h : StorageHandle) (mem : Bytes) (w : World env) (i : ℕ)
      → i ≢ h.tx
      → views (load_from_serialized env h mem w).1 i ≡ views w i
  unfolding load_from_serialized submit_task
  load-other h mem w i other = ground arith

  mark-other :
      (h : StorageHandle) (meta : Meta env) (w : World env) (i : ℕ)
      → i ≢ h.tx
      → views (write_snapshot_meta env h meta w).1 i ≡ views w i
  unfolding write_snapshot_meta kv_put execute_or execute submit_task
  mark-other h meta w i other = ground arith

  -- However `install_snapshot` ends, the tables of every thread but that of the live data are as they
  -- were. So a store with a state store of its own keeps its log, its vote and its purged id.
  pub install_snapshot-separate :
      (meta : Meta env) (snapshot : Bytes) (s : System env) (i : ℕ)
      → i ≢ s.raft.state_machine.data'.tx
      → views (install_snapshot env meta snapshot s).1.world i ≡ views s.world i
  unfolding install_snapshot
  install_snapshot-separate meta snapshot s i other =
      let h = s.raft.state_machine.data' in
      let w = s.world in
      >>=-keeps (λ w'. views w' i ≡ views w i)
        (with_err (λ _. create_snapshot_err) (lift (from_slice env snapshot)))
        (λ mem. load h mem >> mark h meta) w refl
        λ mem _.
          >>=-keeps (λ w'. views w' i ≡ views w i) (load h mem) (λ _. mark h meta) w
            (load-other h mem w i other)
            λ _ _.
              mark-other h meta (load_from_serialized env h mem w).1 i other
              ∙ load-other h mem w i other

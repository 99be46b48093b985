-- ===== src/Raft/Snapshots/Build.antt =====
-- `build_snapshot`, and `get_current_snapshot` after it.
use replicat.Prelude.{
  ℕ, ◌≡◌, ◌≢◌, sym, subst, inl, inr, ◌∙◌, ap, arith, Option, some, [], length, ◌≤◌,
}
use replicat.Exec.{ok, Exec, Result-cases, with_err, pure, ◌>>=◌, >>=-eq-ok, map_err-eq-ok}
use replicat.Openraft.{StorageError}
use replicat.Sql.{Bytes}
use replicat.Env.{Env, IsFaithful, overlay, not_found, other}
use replicat.Handle.{StorageHandle, World, fetch_one, execute_or, execute}
use replicat.Handle.Effects.{views}
use replicat.Kv.Effects.{Keeps, kv_get-Keeps}
use replicat.Raft.{System, on_world, create_snapshot_err, snapshot_meta_key}
use replicat.Raft.Store.{get_and_inc_snapshot_index, count_snapshot}
use replicat.Raft.Snapshots.{
  Meta, Snapshot, get_snapshot_meta, create_snapshot, snapshot_id_of, build_snapshot, with_file,
  get_current_snapshot,
}
use replicat.Raft.Snapshots.Files.{overlay-short}
use replicat.Raft.Snapshots.Create.{create_snapshot_lem, kv_get-disk}

module _ (env : Env) (law : IsFaithful env) where
  open env use {file, read_file, meta_codec}

  pub index-disk :
      (s : System env)
      → ((get_and_inc_snapshot_index env s).1.world.disk ≡ s.world.disk)
        × ((get_and_inc_snapshot_index env s).1.raft ≡ s.raft)
  unfolding get_and_inc_snapshot_index fetch_one execute_or execute count_snapshot
  index-disk s = (ground arith, ground arith)

  -- the calls of `build_snapshot`
  abbrev pub meta_of : System env → ℕ → Meta env
  meta_of s idx = record {
    last_log_id = s.raft.state_machine.last_applied_log;
    last_membership = s.raft.state_machine.last_membership;
    snapshot_id = snapshot_id_of env s.raft.state_machine.last_applied_log idx;
  }

  abbrev pub dump_to : System env → Meta env → Exec (System env) StorageError Bytes
  dump_to s meta = on_world (
      with_err (λ _. create_snapshot_err)
        (create_snapshot env s.raft.snapshot_path s.raft.state_machine.data' meta))

  abbrev pub build_with : System env → ℕ → Exec (System env) StorageError (Snapshot env)
  build_with s idx =
      dump_to s (meta_of s idx) >>= λ b. pure (record { meta = meta_of s idx; snapshot = b })

  build_snapshot-stored :
      (s : System env) (snap : Snapshot env)
      → (build_snapshot env s).0 ≡ ok snap
      → snap.snapshot ≢ []
      → let s' = (build_snapshot env s).1 in
        Keeps meta_codec
          ((views s'.world s.raft.state_machine.data'.tx).kv snapshot_meta_key)
          (some snap.meta)
        × (file s'.world.disk s.raft.snapshot_path
            ≡ some (overlay snap.snapshot (file s.world.disk s.raft.snapshot_path)))
        × (s'.raft ≡ s.raft)
  unfolding build_snapshot
  build_snapshot-stored s snap e full =
      let (idx, o1, e1, s1) = >>=-eq-ok (get_and_inc_snapshot_index env) (build_with s) s snap e in
      let s2 = (get_and_inc_snapshot_index env s).1 in
      let meta = meta_of s idx in
      let (got, o2, e2, q) =
        >>=-eq-ok (dump_to s meta) (λ b. pure (record { meta = meta; snapshot = b })) s2 snap e1 in
      let made : Snapshot env = record { meta = meta; snapshot = got } in
      let same : made ≡ snap = ground (arith, e2) in
      let (b, enc, v, f) =
        create_snapshot_lem env law s.raft.snapshot_path s.raft.state_machine.data' meta got
          s2.world
          (map_err-eq-ok _
            (create_snapshot env s.raft.snapshot_path s.raft.state_machine.data' meta s2.world).0
            got o2)
          λ no. full (ap (λ z. z.snapshot) (sym same) ∙ no) in
      let (disk, raft) = index-disk s in
      let both = s1 ∙ q in
      (
        (
          b,
          subst (λ (z : Snapshot env). meta_codec.to_vec z.meta ≡ ok b) same enc,
          ap (λ z. (views z.1.world s.raft.state_machine.data'.tx).kv snapshot_meta_key) both ∙ v,
        ),
        ap (λ z. file z.1.world.disk s.raft.snapshot_path) both
            ∙ f
            ∙ ap
                (λ (z : Snapshot env).
                  some (overlay z.snapshot (file s2.world.disk s.raft.snapshot_path)))
                same
            ∙ ap (λ d. some (overlay snap.snapshot (file d s.raft.snapshot_path))) disk,
        ap (λ z. z.1.raft) both ∙ raft,
      )

  read-held :
      (path : _) (meta : Meta env) (content : Bytes) (w : World env) (r : Option (Snapshot env))
      → file w.disk path ≡ some content
      → (with_file env path (some meta) w).0 ≡ ok r
      → r ≡ some (record { meta = meta; snapshot = content })
  read-held path meta content w r f e = elim (Result-cases (read_file w.disk path)) [
    | inl (b, g) ↦ ground (arith, law.read_file_ok w.disk path b)
    | inr (not_found, g) ↦ ground (arith, law.read_file_missing w.disk path)
    | inr (other, g) ↦ ground arith
  ]

  -- the calls of `get_current_snapshot`
  abbrev read_meta : StorageHandle → Exec (World env) StorageError (Option (Meta env))
  read_meta h = with_err (λ _. create_snapshot_err) (get_snapshot_meta env h)

  get_current_snapshot-held :
      (s : System env) (meta : Meta env) (content : Bytes) (r : Option (Snapshot env))
      → Keeps meta_codec
          ((views s.world s.raft.state_machine.data'.tx).kv snapshot_meta_key)
          (some meta)
      → file s.world.disk s.raft.snapshot_path ≡ some content
      → (get_current_snapshot env s).0 ≡ ok r
      → r ≡ some (record { meta = meta; snapshot = content })
  unfolding get_current_snapshot get_snapshot_meta
  get_current_snapshot-held s meta content r k f e =
      let h = s.raft.state_machine.data' in
      let path = s.raft.snapshot_path in
      let w = s.world in
      let (m, o1, e1, _) = >>=-eq-ok (read_meta h) (with_file env path) w r e in
      let w1 = (read_meta h w).1 in
      let found =
        kv_get-Keeps env law meta_codec tt h snapshot_meta_key w law.meta_ok (some meta) m k
          (map_err-eq-ok _ (get_snapshot_meta env h w).0 m o1) in
      read-held path meta content w1 r
        (ap (λ d. file d path) (kv_get-disk env law meta_codec tt h snapshot_meta_key w) ∙ f)
        (subst (λ z. (with_file env path z w1).0 ≡ ok r) found e1)

  -- After a snapshot of a database with tables is built, the current snapshot, if it can be read,
  -- is the one that was built, but its bytes are those of the file: the snapshot's, and after them
  -- what a longer file held there before.
  pub build_snapshot-get_current_snapshot :
      (s : System env) (snap : Snapshot env) (r : Option (Snapshot env))
      → (build_snapshot env s).0 ≡ ok snap
      → snap.snapshot ≢ []
      → (get_current_snapshot env (build_snapshot env s).1).0 ≡ ok r
      → r
        ≡ some (record {
          meta = snap.meta;
          snapshot = overlay snap.snapshot (file s.world.disk s.raft.snapshot_path);
        })
  build_snapshot-get_current_snapshot s snap r e full o =
      let s' = (build_snapshot env s).1 in
      let (k, f, raft) = build_snapshot-stored s snap e full in
      get_current_snapshot-held s' snap.meta
        (overlay snap.snapshot (file s.world.disk s.raft.snapshot_path)) r (rw raft k) (rw raft f) o

  -- After a snapshot of a database with tables is built over a file that was not longer, the current
  -- snapshot, if it can be read, is exactly what was built.
  pub build_snapshot-short :
      (s : System env) (snap : Snapshot env) (r : Option (Snapshot env)) (old : Bytes)
      → (build_snapshot env s).0 ≡ ok snap
      → snap.snapshot ≢ []
      → file s.world.disk s.raft.snapshot_path ≡ some old
      → length old ≤ length snap.snapshot
      → (get_current_snapshot env (build_snapshot env s).1).0 ≡ ok r
      → r ≡ some snap
  build_snapshot-short s snap r old e full f short o =
      build_snapshot-get_current_snapshot s snap r e full o
      ∙ ap (λ b. some (record { meta = snap.meta; snapshot = b }))
          (ap (overlay snap.snapshot) f ∙ overlay-short snap.snapshot old short)

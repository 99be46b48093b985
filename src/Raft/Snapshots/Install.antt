-- ===== src/Raft/Snapshots/Install.antt =====
-- `install_snapshot` of src/storage/raft.rs, and the store after it.
use replicat.Prelude.{◌≡◌, refl, sym, ◌∙◌, ap, arith, []}
use replicat.Exec.{Result, ok, err, Exec, with_err, lift, ◌>>◌, >>=-eq-ok, map_err-eq-ok}
use replicat.Openraft.{StorageError}
use replicat.Sql.{Bytes}
use replicat.Sql.Tables.{Tables}
use replicat.Env.{Env, IsFaithful}
use replicat.Handle.{StorageHandle, World, from_slice, load_from_serialized}
use replicat.Handle.Effects.{views}
use replicat.Kv.Effects.{with_value, stored-at, kv_put-views}
use replicat.Raft.{
  System, RaftStore, vote_key, StateMachine, create_snapshot_err, snapshot_meta_key,
}
use replicat.Raft.Log.Writes.{log_tables}
use replicat.Raft.Machine.{last_applied_state}
use replicat.Raft.Machine.Coherent.{data_tables, Matches}
use replicat.Raft.Machine.Restart.{create_state_machine-Matches}
use replicat.Raft.Open.{create_state_machine}
use replicat.Raft.Snapshots.{Meta, write_snapshot_meta, install_snapshot}

module _ (env : Env) (law : IsFaithful env) where
  open env use {meta_codec, image_tables}

  from_slice-ok : (buf mem : Bytes) → from_slice env buf ≡ ok mem → mem ≡ buf
  unfolding from_slice
  from_slice-ok buf mem e = ground arith

  load-tables :
      (h : StorageHandle) (mem : Bytes) (w : World env)
      → (load_from_serialized env h mem w).0 ≡ ok tt
      → views (load_from_serialized env h mem w).1 h.tx ≡ image_tables mem
  unfolding load_from_serialized
  load-tables h mem w e = ground (arith, law.deserialize_ok (w.conns h.tx) mem)

  -- the calls of `install_snapshot`
  abbrev Step : Type 0 → Type 0
  Step A = Exec (World env) StorageError A

  abbrev copy : Bytes → Step Bytes
  copy snapshot = with_err (λ _. create_snapshot_err) (lift (from_slice env snapshot))

  abbrev load : StorageHandle → Bytes → Step Unit
  load h mem = with_err (λ _. create_snapshot_err) (load_from_serialized env h mem)

  abbrev mark : StorageHandle → Meta env → Step Unit
  mark h meta = with_err (λ _. create_snapshot_err) (write_snapshot_meta env h meta)

  abbrev load_and_mark : StorageHandle → Meta env → Bytes → Step Unit
  load_and_mark h meta mem = load h mem >> mark h meta

  abbrev tables_of : StorageHandle → Result StorageError Unit × World env → Tables
  tables_of h (_, w) = views w h.tx

  mark-tables :
      (h : StorageHandle) (meta : Meta env) (w : World env)
      → (write_snapshot_meta env h meta w).0 ≡ ok tt
      → (b : Bytes) × (meta_codec.to_vec meta ≡ ok b)
        × (views (write_snapshot_meta env h meta w).1 h.tx
            ≡ with_value (views w h.tx) snapshot_meta_key b)
  unfolding write_snapshot_meta
  mark-tables h meta w e =
      let (b, g, v) = kv_put-views env law meta_codec tt h snapshot_meta_key w meta e in
      (b, g, ap (λ f. f h.tx) v ∙ stored-at (views w) h.tx snapshot_meta_key b)

  -- A snapshot that is installed has replaced the tables of the live database, with its metadata
  -- under their key; the handles and the values in memory are as before.
  pub install_snapshot-tables :
      (meta : Meta env) (snapshot : Bytes) (s : System env)
      → (install_snapshot env meta snapshot s).0 ≡ ok tt
      → let s' = (install_snapshot env meta snapshot s).1 in
        (b : Bytes) × (meta_codec.to_vec meta ≡ ok b)
        × (data_tables s' ≡ with_value (image_tables snapshot) snapshot_meta_key b)
        × (s'.raft ≡ s.raft)
  unfolding install_snapshot
  install_snapshot-tables meta snapshot s e =
      let h = s.raft.state_machine.data' in
      let w = s.world in
      let (mem, o1, e1, s1) = >>=-eq-ok (copy snapshot) (load_and_mark h meta) w tt e in
      let (_, o2, e2, s2) = >>=-eq-ok (load h mem) (λ _. mark h meta) w tt e1 in
      let w2 = (load h mem w).1 in
      let loaded =
        load-tables h mem w (map_err-eq-ok _ (load_from_serialized env h mem w).0 tt o2) in
      let same = from_slice-ok snapshot mem (map_err-eq-ok _ (from_slice env snapshot) mem o1) in
      let (b, g, v) =
        mark-tables h meta w2 (map_err-eq-ok _ (write_snapshot_meta env h meta w2).0 tt e2) in
      (
        b,
        g,
        ap (tables_of h) (s1 ∙ s2)
            ∙ v
            ∙ ap (λ t. with_value t snapshot_meta_key b) (loaded ∙ ap image_tables same),
        refl,
      )

  -- The values in memory are not read again: they stay those from before the snapshot, while the
  -- database has those of the state machine that the snapshot was taken of, and a restart finds
  -- these.
  pub install_snapshot-stale :
      (meta : Meta env) (snapshot : Bytes) (s : System env) (taken m' : StateMachine env)
      → Matches taken (image_tables snapshot)
      → (install_snapshot env meta snapshot s).0 ≡ ok tt
      → let s' = (install_snapshot env meta snapshot s).1 in
        (create_state_machine env s'.raft.state_machine.data' s'.world).0 ≡ ok m'
        → ((last_applied_state env s').0
            ≡ ok (s.raft.state_machine.last_applied_log, s.raft.state_machine.last_membership))
          × (m'.last_applied_log ≡ taken.last_applied_log)
          × (m'.last_membership ≡ taken.last_membership)
  unfolding last_applied_state
  install_snapshot-stale meta snapshot s taken m' k e o =
      let s' = (install_snapshot env meta snapshot s).1 in
      let (b, g, v, same) = install_snapshot-tables meta snapshot s e in
      let held : Matches taken (data_tables s') =
        rw v (record { applied = k.applied; effective = k.effective }) in
      let (applied, effective, _) =
        create_state_machine-Matches env law s'.raft.state_machine.data' s'.world taken m' held o in
      (
        ap
            (λ (r : RaftStore env).
              ok (r.state_machine.last_applied_log, r.state_machine.last_membership))
            same,
        applied,
        effective,
      )

  -- Where the store was opened with no state store of its own, the log's tables are the live ones:
  -- a snapshot that is installed replaces the log and the vote by those of its sender.
  pub install_snapshot-shared :
      (meta : Meta env) (snapshot : Bytes) (s : System env)
      → s.raft.state_machine.data' ≡ s.raft.log
      → (install_snapshot env meta snapshot s).0 ≡ ok tt
      → let s' = (install_snapshot env meta snapshot s).1 in
        ((log_tables s').logs ≡ (image_tables snapshot).logs)
        × ((log_tables s').kv vote_key ≡ (image_tables snapshot).kv vote_key)
  install_snapshot-shared meta snapshot s shared e =
      let s' = (install_snapshot env meta snapshot s).1 in
      let (b, g, v, same) = install_snapshot-tables meta snapshot s e in
      let one : log_tables s' ≡ with_value (image_tables snapshot) snapshot_meta_key b =
        ap (λ (r : RaftStore env). views s'.world r.log.tx) same
        ∙ ap (λ (h : StorageHandle). views s'.world h.tx) (sym shared)
        ∙ ap (λ (r : RaftStore env). views s'.world r.state_machine.data'.tx) (sym same)
        ∙ v in
      (ap (λ t. t.logs) one, ap (λ t. t.kv vote_key) one)

  -- The buffer that `begin_receiving_snapshot` returns cannot be installed as it is: SQLite
  -- allocates no empty buffer, so that the call fails and nothing changes.
  pub install_snapshot-empty :
      (meta : Meta env) (s : System env)
      → install_snapshot env meta [] s ≡ (err create_snapshot_err, s)
  unfolding install_snapshot from_slice
  install_snapshot-empty meta s = ground (arith, law.malloc_zero)

-- ===== src/Raft/Snapshots/Transfer.antt =====
-- A snapshot of src/storage/raft.rs that one node builds and another node installs.
use replicat.Prelude.{
  ℕ, ◌≡◌, ◌≢◌, sym, subst, ◌∙◌, ap, arith, Option, none, some, [], fun_ext, String,
}
use replicat.Exec.{ok, pure, >>=-eq-ok, map_err-eq-ok}
use replicat.Sql.{Bytes, select_schema}
use replicat.Sql.Tables.{Tables}
use replicat.Env.{Env, IsFaithful, FilePath}
use replicat.Handle.{
  StorageHandle, World, submit_task, serialize, serialize_if, serialize_db, fetch_one,
  from_row_string, execute_or, execute,
}
use replicat.Handle.Effects.{views}
use replicat.Kv.Effects.{with_value, stored-at, kv_put-views}
use replicat.Raft.{System, RaftStore, StateMachine, snapshot_meta_key}
use replicat.Raft.Store.{get_and_inc_snapshot_index, count_snapshot}
use replicat.Raft.Machine.Coherent.{data_tables, Matches, IsCoherent}
use replicat.Raft.Machine.Restart.{create_state_machine-Matches}
use replicat.Raft.Open.{create_state_machine}
use replicat.Raft.Snapshots.{
  Meta, Snapshot, write_snapshot_meta, write_snapshot_file, store_snapshot, create_snapshot,
  build_snapshot, install_snapshot,
}
use replicat.Raft.Snapshots.Files.{schema-views, serialize-views}
use replicat.Raft.Snapshots.Create.{dump, dump_and_store, store_snapshot-file}
use replicat.Raft.Snapshots.Build.{index-disk, meta_of, dump_to, build_with}
use replicat.Raft.Snapshots.Install.{install_snapshot-tables}

-- what is stored twice is stored once
with_value_twice :
    (t : Tables) (k : String) (b : Bytes) → with_value (with_value t k b) k b ≡ with_value t k b
with_value_twice t k b = ap (λ (f : String → _). record t { kv = f }) (fun_ext λ j. ground arith)

module _ (env : Env) (law : IsFaithful env) where
  open env use {meta_codec, image_tables}

  pub serialize_if-image :
      (h : StorageHandle) (name : Option String) (b : Bytes) (w : World env)
      → (serialize_if env h name w).0 ≡ ok (some b)
      → image_tables b ≡ views w h.tx
  unfolding submit_task serialize_db
  serialize_if-image h none b w e = ground arith
  serialize_if-image h (some _) b w e = ground (arith, law.serialize_ok (w.conns h.tx) b)

  -- the bytes of a database with tables
  serialize-image :
      (h : StorageHandle) (b : Bytes) (w : World env)
      → (serialize env h w).0 ≡ ok (some b)
      → image_tables b ≡ views w h.tx
  unfolding serialize
  serialize-image h b w e =
      let schema = fetch_one env h (from_row_string env) select_schema [] in
      let (name, o1, e1, _) = >>=-eq-ok schema (serialize_if env h) w (some b) e in
      serialize_if-image h name b (schema w).1 e1 ∙ ap (λ f. f h.tx) (schema-views env law h w)

  pub store_snapshot-bytes :
      (path : FilePath) (o : Option Bytes) (got : Bytes) (w : World env)
      → (store_snapshot env path o w).0 ≡ ok got
      → got ≢ []
      → o ≡ some got
  unfolding store_snapshot
  store_snapshot-bytes path none got w e full = absurd (full (ground arith))
  store_snapshot-bytes path (some b) got w e full =
      let (_, o1, e1, s1) = >>=-eq-ok (write_snapshot_file env path b) (λ _. pure b) w got e in
      ground (arith, e1)

  -- The bytes that `create_snapshot` returns are those of the database that it leaves, in which the
  -- metadata is stored.
  create_snapshot-image :
      (path : FilePath) (h : StorageHandle) (meta : Meta env) (got : Bytes) (w : World env)
      → (create_snapshot env path h meta w).0 ≡ ok got
      → got ≢ []
      → let w' = (create_snapshot env path h meta w).1 in
        (b : Bytes) × (meta_codec.to_vec meta ≡ ok b)
        × (views w' h.tx ≡ with_value (views w h.tx) snapshot_meta_key b)
        × (image_tables got ≡ with_value (views w h.tx) snapshot_meta_key b)
  unfolding create_snapshot write_snapshot_meta
  create_snapshot-image path h meta got w e full =
      let (_, o1, e1, s1) =
        >>=-eq-ok (write_snapshot_meta env h meta) (λ _. dump_and_store env law path h) w got e in
      let w1 = (write_snapshot_meta env h meta w).1 in
      let (o, o2, e2, s2) = >>=-eq-ok (dump env law h) (store_snapshot env path) w1 got e1 in
      let w2 = (dump env law h w1).1 in
      let (b, enc, v) = kv_put-views env law meta_codec tt h snapshot_meta_key w meta o1 in
      let held : views w1 h.tx ≡ with_value (views w h.tx) snapshot_meta_key b =
        ap (λ f. f h.tx) v ∙ stored-at (views w) h.tx snapshot_meta_key b in
      let (_, c) = store_snapshot-file env law path o got w2 e2 full in
      let dumped : (serialize env h w1).0 ≡ ok (some got) =
        map_err-eq-ok _ (serialize env h w1).0 (some got)
          (o2 ∙ ap ok (store_snapshot-bytes path o got w2 e2 full)) in
      (
        b,
        enc,
        ap (λ z. views z.1 h.tx) (s1 ∙ s2)
            ∙ ap (λ (cs : ℕ → env.Conn). env.tables (cs h.tx)) c
            ∙ ap (λ f. f h.tx) (serialize-views env law h w1)
            ∙ held,
        serialize-image h got w1 dumped ∙ held,
      )

  -- the state after the snapshot was counted
  abbrev pub counted : System env → System env
  counted s = (get_and_inc_snapshot_index env s).1

  build_snapshot-image :
      (s : System env) (snap : Snapshot env)
      → (build_snapshot env s).0 ≡ ok snap
      → snap.snapshot ≢ []
      → let s' = (build_snapshot env s).1 in
        (b : Bytes) × (idx : ℕ) × (snap.meta ≡ meta_of env law s idx)
        × (meta_codec.to_vec snap.meta ≡ ok b)
        × (s'.raft ≡ s.raft)
        × (data_tables s'
            ≡ with_value
                (views (counted s).world s.raft.state_machine.data'.tx)
                snapshot_meta_key
                b)
        × (image_tables snap.snapshot
            ≡ with_value
                (views (counted s).world s.raft.state_machine.data'.tx)
                snapshot_meta_key
                b)
  unfolding build_snapshot
  build_snapshot-image s snap e full =
      let h = s.raft.state_machine.data' in
      let path = s.raft.snapshot_path in
      let (idx, o1, e1, s1) =
        >>=-eq-ok (get_and_inc_snapshot_index env) (build_with env law s) s snap e in
      let meta = meta_of env law s idx in
      let s2 = counted s in
      let (got, o2, e2, s3) =
        >>=-eq-ok (dump_to env law s meta) (λ b. pure (record { meta = meta; snapshot = b })) s2
          snap e1 in
      let made : Snapshot env = record { meta = meta; snapshot = got } in
      let same : made ≡ snap = ground (arith, e2) in
      let (b, enc, v, image) =
        create_snapshot-image path h meta got s2.world
          (map_err-eq-ok _ (create_snapshot env path h meta s2.world).0 got o2)
          λ no. full (ap (λ z. z.snapshot) (sym same) ∙ no) in
      let (_, raft) = index-disk env law s in
      let kept : (build_snapshot env s).1.raft ≡ s.raft = ap (λ z. z.1.raft) (s1 ∙ s3) ∙ raft in
      (
        b,
        idx,
        ap (λ z. z.meta) (sym same),
        subst (λ (z : Snapshot env). meta_codec.to_vec z.meta ≡ ok b) same enc,
        kept,
        ap (λ (r : RaftStore env). views (build_snapshot env s).1.world r.state_machine.data'.tx)
              kept
            ∙ ap (λ z. views z.1.world h.tx) (s1 ∙ s3)
            ∙ v,
        ap (λ (z : Snapshot env). image_tables z.snapshot) (sym same) ∙ image,
      )

  -- A node whose live data has tables builds a snapshot and another installs it. Where both calls
  -- succeed, the live tables of the second are those that the first is left with.
  pub transfer-tables :
      (a b : System env) (snap : Snapshot env)
      → (build_snapshot env a).0 ≡ ok snap
      → snap.snapshot ≢ []
      → (install_snapshot env snap.meta snap.snapshot b).0 ≡ ok tt
      → data_tables (install_snapshot env snap.meta snap.snapshot b).1
        ≡ data_tables (build_snapshot env a).1
  transfer-tables a b snap e full o =
      let (x, _, _, enc, _, left, image) = build_snapshot-image a snap e full in
      let (y, enc', v, _) = install_snapshot-tables env law snap.meta snap.snapshot b o in
      let same : y ≡ x = ground (arith, enc, enc') in
      let t = views (counted a).world a.raft.state_machine.data'.tx in
      v
      ∙ ap (λ z. with_value z snapshot_meta_key y) image
      ∙ ap (with_value (with_value t snapshot_meta_key x) snapshot_meta_key) same
      ∙ with_value_twice t snapshot_meta_key x
      ∙ sym left

  pub counted-separate :
      (s : System env) (i : ℕ) → i ≢ s.raft.log.tx → views (counted s).world i ≡ views s.world i
  unfolding get_and_inc_snapshot_index fetch_one execute_or execute count_snapshot submit_task
  counted-separate s i other = ground arith

  -- The same where the values in memory of the first node are those in its database, which is not
  -- its log's: the metadata names the first node's last applied id and membership, and a restart of
  -- the second node finds them.
  pub transfer-restart :
      (a b : System env) (snap : Snapshot env) (m : StateMachine env)
      → a.raft.state_machine.data'.tx ≢ a.raft.log.tx
      → IsCoherent a
      → (build_snapshot env a).0 ≡ ok snap
      → snap.snapshot ≢ []
      → (install_snapshot env snap.meta snap.snapshot b).0 ≡ ok tt
      → let b' = (install_snapshot env snap.meta snap.snapshot b).1 in
        (create_state_machine env b'.raft.state_machine.data' b'.world).0 ≡ ok m
        → (snap.meta.last_log_id ≡ a.raft.state_machine.last_applied_log)
          × (snap.meta.last_membership ≡ a.raft.state_machine.last_membership)
          × (m.last_applied_log ≡ a.raft.state_machine.last_applied_log)
          × (m.last_membership ≡ a.raft.state_machine.last_membership)
  transfer-restart a b snap m apart k e full o r =
      let b' = (install_snapshot env snap.meta snap.snapshot b).1 in
      let (x, idx, meta, _, _, left, _) = build_snapshot-image a snap e full in
      let same = counted-separate a a.raft.state_machine.data'.tx apart in
      let held : Matches a.raft.state_machine (data_tables b') =
        rw (transfer-tables a b snap e full o, left, same)
          (record { applied = k.applied; effective = k.effective }) in
      let (applied, effective, _) =
        create_state_machine-Matches env law b'.raft.state_machine.data' b'.world
          a.raft.state_machine m held r in
      (ap (λ z. z.last_log_id) meta, ap (λ z. z.last_membership) meta, applied, effective)

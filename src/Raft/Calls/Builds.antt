-- ===== src/Raft/Calls/Builds.antt =====
-- `build_snapshot` and `get_current_snapshot`, and the live database.
use replicat.Prelude.{ℕ, ◌≡◌, refl, sym, subst, ap, ◌∙◌, inl, inr, Option, none, some}
use replicat.Exec.{Result-cases, with_err, pure, >>=-keeps}
use replicat.Sql.{Bytes}
use replicat.Env.{Env, IsFaithful, FilePath}
use replicat.Handle.{StorageHandle, World}
use replicat.Handle.Effects.{views}
use replicat.Kv.{kv_put}
use replicat.Kv.Effects.{stored-at, kv_put-views, kv_put-views_err, kv_get-views}
use replicat.Raft.{System, StateMachine, create_snapshot_err, snapshot_meta_key}
use replicat.Raft.Store.{get_and_inc_snapshot_index}
use replicat.Raft.Machine.Coherent.{data_tables, Matches}
use replicat.Raft.Snapshots.{
  Meta, write_snapshot_meta, write_snapshot_file, store_snapshot, create_snapshot, build_snapshot,
  get_snapshot_meta, with_file, get_current_snapshot,
}
use replicat.Raft.Snapshots.Files.{write_snapshot_file-conns, serialize-views}
use replicat.Raft.Snapshots.Create.{dump, dump_and_store}
use replicat.Raft.Snapshots.Build.{dump_to, build_with, meta_of}
use replicat.Raft.Snapshots.Transfer.{counted-separate}
use replicat.Raft.Calls.Settled.{IsSettled, same-IsSettled}

module _ (env : Env) (law : IsFaithful env) where
  open env use {meta_codec}

  -- `create_snapshot` on the live database
  module _ (m : StateMachine env) (h : StorageHandle) where
    abbrev Held : World env → Type 0
    Held w = Matches m (views w h.tx)

    same-Held : (w w' : World env) → Held w → views w' h.tx ≡ views w h.tx → Held w'
    same-Held w w' k e = subst (Matches m) (sym e) k

    mark-Held :
        (meta : Meta env) (w : World env) → Held w → Held (write_snapshot_meta env h meta w).1
    unfolding write_snapshot_meta
    mark-Held meta w k =
        elim (Result-cases (kv_put env meta_codec tt h snapshot_meta_key meta w).0) [
          | inl (_, o) ↦
              let (b, _, v) = kv_put-views env law meta_codec tt h snapshot_meta_key w meta o in
              subst (Matches m)
                (sym (ap (λ f. f h.tx) v ∙ stored-at (views w) h.tx snapshot_meta_key b))
                (record { applied = k.applied; effective = k.effective })
          | inr (x, o) ↦ same-Held w (kv_put env meta_codec tt h snapshot_meta_key meta w).1 k (
              ap (λ f. f h.tx)
                (kv_put-views_err env law meta_codec tt h snapshot_meta_key w meta x o))
        ]

    store-Held :
        (path : FilePath) (o : Option Bytes) (w : World env)
        → Held w
        → Held (store_snapshot env path o w).1
    unfolding store_snapshot
    store-Held path none w k = k
    store-Held path (some b) w k =
        let written : Held (write_snapshot_file env path b w).1 =
          same-Held w (write_snapshot_file env path b w).1 k (
            ap (λ (cs : ℕ → env.Conn). env.tables (cs h.tx))
              (write_snapshot_file-conns env law path b w)) in
        >>=-keeps Held (write_snapshot_file env path b) (λ _. pure b) w written (λ _ _. written)

    create_snapshot-Held :
        (path : FilePath) (meta : Meta env) (w : World env)
        → Held w
        → Held (create_snapshot env path h meta w).1
    unfolding create_snapshot
    create_snapshot-Held path meta w k =
        let marked = mark-Held meta w k in
        >>=-keeps Held (write_snapshot_meta env h meta) (λ _. dump_and_store env law path h) w
          marked
          λ _ _.
            let w1 = (write_snapshot_meta env h meta w).1 in
            let dumped : Held (dump env law h w1).1 =
              same-Held w1 (dump env law h w1).1 marked
                (ap (λ f. f h.tx) (serialize-views env law h w1)) in
            >>=-keeps Held (dump env law h) (store_snapshot env path) w1 dumped
              (λ o _. store-Held path o (dump env law h w1).1 dumped)

  pub builds-IsSettled : (s : System env) → IsSettled s → IsSettled (build_snapshot env s).1
  unfolding build_snapshot get_and_inc_snapshot_index
  builds-IsSettled s k =
      let s1 = (get_and_inc_snapshot_index env s).1 in
      let m = s.raft.state_machine in
      let counted =
        same-IsSettled env law s s1.world k (counted-separate env law s m.data'.tx k.apart) in
      >>=-keeps IsSettled (get_and_inc_snapshot_index env) (build_with env law s) s counted λ idx _.
        let meta = meta_of env law s idx in
        let dumped : IsSettled (dump_to env law s meta s1).1 = record {
          apart = k.apart;
          coherent =
              create_snapshot-Held m m.data' s.raft.snapshot_path meta s1.world counted.coherent;
        } in
        >>=-keeps IsSettled (dump_to env law s meta)
          (λ b. pure (record { meta = meta; snapshot = b })) s1 dumped (λ _ _. dumped)

  file-same :
      (path : FilePath) (meta : Option (Meta env)) (w : World env)
      → (with_file env path meta w).1 ≡ w
  file-same path none w = refl
  file-same path (some meta) w = refl

  pub reads_snapshot-IsSettled :
      (s : System env) → IsSettled s → IsSettled (get_current_snapshot env s).1
  unfolding get_current_snapshot get_snapshot_meta
  reads_snapshot-IsSettled s k =
      let h = s.raft.state_machine.data' in
      let read = with_err (λ _. create_snapshot_err) (get_snapshot_meta env h) in
      let same =
        ap (λ f. f h.tx) (kv_get-views env law meta_codec tt h snapshot_meta_key s.world) in
      let kept =
        >>=-keeps (λ w'. views w' h.tx ≡ data_tables s) read (with_file env s.raft.snapshot_path)
          s.world same
          λ meta _.
            ap (λ w'. views w' h.tx) (file-same s.raft.snapshot_path meta (read s.world).1)
            ∙ same in
      same-IsSettled env law s _ k kept

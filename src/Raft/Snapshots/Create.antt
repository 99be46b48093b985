-- ===== src/Raft/Snapshots/Create.antt =====
-- `create_snapshot`: the metadata in the database, and the file.
use replicat.Prelude.{ℕ, String, ◌≡◌, ◌≢◌, ◌∙◌, ap, arith, Option, none, some, []}
use replicat.Exec.{ok, with_err, pure, ◌>>=◌, >>=-eq-ok}
use replicat.Sql.{Bytes, blob}
use replicat.Sql.Tables.{Tables}
use replicat.Env.{Env, IsFaithful, FilePath, Codec, overlay}
use replicat.Handle.{StorageHandle, World, serialize, fetch_one, execute_or, execute}
use replicat.Handle.Effects.{views}
use replicat.Kv.{kv_put, kv_get}
use replicat.Kv.Effects.{stored-at, kv_put-views}
use replicat.Raft.{snapshot_meta_key}
use replicat.Raft.Snapshots.{
  Meta, Anyhow, write_snapshot_meta, write_snapshot_file, store_snapshot, create_snapshot,
}
use replicat.Raft.Snapshots.Files.{
  write_snapshot_file-conns, write_snapshot_file-file, serialize-disk, serialize-views,
}

module _ (env : Env) (law : IsFaithful env) where
  open env use {file, read_file, meta_codec}

  kv_put-disk :
      {E A : Type 0} (codec : Codec A) (fail : E) (h : StorageHandle) (k : String) (a : A)
      (w : World env)
      → (kv_put env codec fail h k a w).1.disk ≡ w.disk
  unfolding kv_put execute_or execute
  kv_put-disk codec fail h k a w = ground arith

  pub kv_get-disk :
      {E A : Type 0} (codec : Codec A) (fail : E) (h : StorageHandle) (k : String) (w : World env)
      → (kv_get env codec fail h k w).1.disk ≡ w.disk
  unfolding kv_get fetch_one
  kv_get-disk codec fail h k w = ground arith

  pub store_snapshot-file :
      (path : FilePath) (o : Option Bytes) (got : Bytes) (w : World env)
      → (store_snapshot env path o w).0 ≡ ok got
      → got ≢ []
      → (file (store_snapshot env path o w).1.disk path ≡ some (overlay got (file w.disk path)))
        × ((store_snapshot env path o w).1.conns ≡ w.conns)
  unfolding store_snapshot
  store_snapshot-file path none got w e full = absurd (full (ground arith))
  store_snapshot-file path (some b) got w e full =
      let (_, o1, e1, s1) = >>=-eq-ok (write_snapshot_file env path b) (λ _. pure b) w got e in
      (
        ap (λ z. file z.1.disk path) s1
            ∙ write_snapshot_file-file env law path b w o1
            ∙ ap (λ (x : Bytes). some (overlay x (file w.disk path))) (ground (arith, e1)),
        ap (λ z. z.1.conns) s1 ∙ write_snapshot_file-conns env law path b w,
      )

  -- the calls of `create_snapshot`
  abbrev pub dump : StorageHandle → Anyhow env (Option Bytes)
  dump h = with_err (λ _. tt) (serialize env h)

  abbrev pub dump_and_store : FilePath → StorageHandle → Anyhow env Bytes
  dump_and_store path h = dump h >>= store_snapshot env path

  pub create_snapshot_lem :
      (path : FilePath) (h : StorageHandle) (meta : Meta env) (got : Bytes) (w : World env)
      → (create_snapshot env path h meta w).0 ≡ ok got
      → got ≢ []
      → let w' = (create_snapshot env path h meta w).1 in
        (b : Bytes) × (meta_codec.to_vec meta ≡ ok b)
        × ((views w' h.tx).kv snapshot_meta_key ≡ some (blob b))
        × (file w'.disk path ≡ some (overlay got (file w.disk path)))
  unfolding create_snapshot write_snapshot_meta
  create_snapshot_lem path h meta got w e full =
      let (_, o1, e1, s1) =
        >>=-eq-ok (write_snapshot_meta env h meta) (λ _. dump_and_store path h) w got e in
      let w1 = (write_snapshot_meta env h meta w).1 in
      let (o, o2, e2, s2) = >>=-eq-ok (dump h) (store_snapshot env path) w1 got e1 in
      let w2 = (dump h w1).1 in
      let (b, enc, v) = kv_put-views env law meta_codec tt h snapshot_meta_key w meta o1 in
      let (f, c) = store_snapshot-file path o got w2 e2 full in
      let both = s1 ∙ s2 in
      (
        b,
        enc,
        ap (λ z. (views z.1 h.tx).kv snapshot_meta_key) both
            ∙ ap (λ (cs : ℕ → _). (env.tables (cs h.tx)).kv snapshot_meta_key) c
            ∙ ap (λ (ts : ℕ → Tables). (ts h.tx).kv snapshot_meta_key)
                (serialize-views env law h w1)
            ∙ ap (λ (ts : ℕ → Tables). (ts h.tx).kv snapshot_meta_key) v
            ∙ ap (λ (t : Tables). t.kv snapshot_meta_key)
                (stored-at (views w) h.tx snapshot_meta_key b),
        ap (λ z. file z.1.disk path) both
            ∙ f
            ∙ ap (λ d. some (overlay got (file d path)))
                (serialize-disk env law h w1
                  ∙ kv_put-disk meta_codec tt h snapshot_meta_key meta w),
      )

-- ===== src/Raft/Snapshots.antt =====
-- Snapshots in src/storage/raft.rs: `create_snapshot`, `RaftSnapshotBuilder`, `install_snapshot` and
-- `get_current_snapshot`.
pub mod Install
pub mod Files
pub mod Create
pub mod Build
pub mod Separate
pub mod Transfer
use Prim.Native.String.{◌++◌}
use replicat.Prelude.{ℕ, String, Option, none, some, List, []}
use replicat.Prelude.Decimal.{decimal}
use replicat.Exec.{Result, ok, err, Exec, pure, lift, map_err, with_err, ◌>>=◌, ◌>>◌}
use replicat.Openraft.{LogId, SnapshotMeta, StorageError}
use replicat.Sql.{Bytes}
use replicat.Env.{Env, FilePath, IoError, not_found, other}
use replicat.Handle.{World, StorageHandle, serialize, from_slice, load_from_serialized}
use replicat.Kv.{kv_put, kv_get}
use replicat.Raft.{System, Storage, on_world, snapshot_meta_key, create_snapshot_err}
use replicat.Raft.Store.{get_and_inc_snapshot_index}

module _ (env : Env) where
  open env use {
    Disk, EffectiveMembership, meta_codec, open_write, write_all, sync_file, read_file,
    display_leader,
  }

  abbrev pub Meta : Type 0
  Meta = SnapshotMeta EffectiveMembership

  -- `Snapshot` of openraft
  pub record Snapshot : Type 0 where
    pub meta : Meta
    pub snapshot : Bytes

  -- `anyhow::Error` keeps nothing that the source reads.
  abbrev pub Anyhow : Type 0 → Type 0
  Anyhow A = Exec (World env) Unit A

  abbrev pub on_disk : {A : Type 0} → (Disk → Result IoError A × Disk) → Anyhow A
  on_disk f w = let (r, d) = f w.disk in (map_err (λ _. tt) r, record w { disk = d })

  unfoldable pub write_snapshot_meta : StorageHandle → Meta → Anyhow Unit
  write_snapshot_meta conn meta = kv_put env meta_codec tt conn snapshot_meta_key meta

  unfoldable pub get_snapshot_meta : StorageHandle → Anyhow (Option Meta)
  get_snapshot_meta conn = kv_get env meta_codec tt conn snapshot_meta_key

  -- the file is opened with `write` and `create`
  unfoldable pub write_snapshot_file : FilePath → Bytes → Anyhow Unit
  write_snapshot_file path data' = do
    on_disk (λ d. open_write d path)
    on_disk (λ d. write_all d path data')
    on_disk (λ d. sync_file d path)
    on_disk (λ d. sync_file d path)

  unfoldable pub store_snapshot : FilePath → Option Bytes → Anyhow Bytes
  store_snapshot path none = pure []
  store_snapshot path (some data') = write_snapshot_file path data' >> pure data'

  unfoldable pub create_snapshot : FilePath → StorageHandle → Meta → Anyhow Bytes
  create_snapshot write_to from meta = do
    write_snapshot_meta from meta
    data' ← with_err (λ _. tt) (serialize env from)
    store_snapshot write_to data'

  unfoldable pub snapshot_id_of : Option LogId → ℕ → String
  unfolding decimal
  snapshot_id_of none idx = "--" ++ decimal idx
  snapshot_id_of (some last) idx =
      display_leader last.leader_id ++ "-" ++ decimal last.index ++ "-" ++ decimal idx

  unfoldable pub build_snapshot : Storage env Snapshot
  unfolding snapshot_id_of
  build_snapshot s =
      let last_applied_log = s.raft.state_machine.last_applied_log in
      let last_membership = s.raft.state_machine.last_membership in
      (do
        snapshot_idx ← get_and_inc_snapshot_index env
        let meta : Meta = record {
          last_log_id = last_applied_log;
          last_membership = last_membership;
          snapshot_id = snapshot_id_of last_applied_log snapshot_idx;
        }
        snapshot ← on_world (
            with_err (λ _. create_snapshot_err)
              (create_snapshot s.raft.snapshot_path s.raft.state_machine.data' meta))
        pure (record { meta = meta; snapshot = snapshot }))
        s

  unfoldable pub begin_receiving_snapshot : Storage env Bytes
  begin_receiving_snapshot = pure []

  unfoldable pub install_snapshot : Meta → Bytes → Storage env Unit
  install_snapshot meta snapshot s =
      on_world
        (do
          mem ← with_err (λ _. create_snapshot_err) (lift (from_slice env snapshot))
          with_err (λ _. create_snapshot_err)
              (load_from_serialized env s.raft.state_machine.data' mem)
          with_err (λ _. create_snapshot_err) (write_snapshot_meta s.raft.state_machine.data' meta))
        s

  abbrev pub read_snapshot : Meta → Result IoError Bytes → Result StorageError (Option Snapshot)
  read_snapshot meta (ok data') = ok (some (record { meta = meta; snapshot = data' }))
  read_snapshot meta (err not_found) = ok none
  read_snapshot meta (err other) = err create_snapshot_err

  abbrev pub with_file : FilePath → Option Meta → Exec (World env) StorageError (Option Snapshot)
  with_file path none w = (ok none, w)
  with_file path (some meta) w = (read_snapshot meta (read_file w.disk path), w)

  unfoldable pub get_current_snapshot : Storage env (Option Snapshot)
  get_current_snapshot s =
      on_world
        (do
          metadata ←
              with_err (λ _. create_snapshot_err) (get_snapshot_meta s.raft.state_machine.data')
          with_file s.raft.snapshot_path metadata)
        s

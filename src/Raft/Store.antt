-- ===== src/Raft/Store.antt =====
-- The single values that `RaftStore` keeps in the log's database: the vote, the last purged id and
-- the counter of snapshots.
pub mod Votes
pub mod Counter
use replicat.Prelude.{ℕ, Option, none, some, [], ◌∷◌}
use replicat.Prelude.Int.{ℤ, pos, as_u64}
use replicat.Exec.{Exec, pure, with_err, ◌>>=◌, ◌>>◌}
use replicat.Openraft.{LogId, Vote, StorageError}
use replicat.Sql.{key, kv_increment, kv_insert_zero}
use replicat.Env.{Env}
use replicat.Handle.{World, StorageHandle, execute_or, fetch_one, from_row_i64}
use replicat.Kv.{kv_put, kv_get}
use replicat.Raft.{
  System, Storage, on_world, vote_key, snapshot_index_key, last_purged_id_key, store_read_error,
  store_write_error,
}

module _ (env : Env) where
  open env use {vote_codec, log_id_codec}

  unfoldable pub get_last_purged_log_id : Storage env (Option LogId)
  get_last_purged_log_id s =
      on_world (kv_get env log_id_codec store_read_error s.raft.log last_purged_id_key) s

  unfoldable pub set_last_purged_log_id : LogId → Storage env Unit
  set_last_purged_log_id log_id s =
      on_world (kv_put env log_id_codec store_write_error s.raft.log last_purged_id_key log_id) s

  -- the index of the next snapshot: 0 where none was counted yet
  unfoldable pub count_snapshot : StorageHandle → Option ℤ → Exec (World env) StorageError ℕ
  count_snapshot log none = do
    execute_or env store_read_error log kv_insert_zero (key snapshot_index_key ∷ [])
    pure 0
  count_snapshot log (some v) = pure (as_u64 v)

  unfoldable pub get_and_inc_snapshot_index : Storage env ℕ
  unfolding count_snapshot
  get_and_inc_snapshot_index s =
      on_world
        (do
          snapshot_index ←
              with_err (λ _. store_read_error)
                (fetch_one env s.raft.log (from_row_i64 env) kv_increment
                  (key snapshot_index_key ∷ []))
          count_snapshot s.raft.log snapshot_index)
        s

  unfoldable pub set_vote : Vote → Storage env Unit
  set_vote vote s = on_world (kv_put env vote_codec store_write_error s.raft.log vote_key vote) s

  unfoldable pub get_vote : Storage env (Option Vote)
  get_vote s = on_world (kv_get env vote_codec store_read_error s.raft.log vote_key) s

  unfoldable pub save_vote : Vote → Storage env Unit
  unfolding set_vote
  save_vote = set_vote

  unfoldable pub read_vote : Storage env (Option Vote)
  unfolding get_vote
  read_vote = get_vote

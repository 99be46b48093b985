-- ===== src/Raft/Log/Delete.antt =====
-- `delete_conflict_logs_since` and `purge_logs_upto` against the abstract log.
use replicat.Prelude.{◌≡◌, ◌≢◌, refl, inl, inr, ◌⊎◌, ◌∙◌, ap, some, List, [], ◌∷◌, ltb}
use replicat.Exec.{Result, ok, err, Result-cases, settled, settled_both, >>=-ok, >>=-err}
use replicat.Openraft.{LogId, Entry, StorageError}
use replicat.Sql.{Bytes, u64, blob, delete_logs_since, delete_logs_upto}
use replicat.Sql.Tables.{Tables, meaning, update}
use replicat.Env.{Env, IsFaithful}
use replicat.Handle.Effects.{views, execute_or-at}
use replicat.Kv.Effects.{stored-at, with_value, kv_put-views, kv_put-views_err}
use replicat.Raft.{System, log_write_error, store_write_error, last_purged_id_key}
use replicat.Raft.Store.{set_last_purged_log_id}
use replicat.Raft.Log.{delete_conflict_logs_since, delete_upto, purge_logs_upto}
use replicat.Raft.Log.Abstract.{where_index, Encodes, Encodes-select}
use replicat.Raft.Log.Writes.{log_tables, Refines}

module _ (env : Env) (law : IsFaithful env) where
  open env use {Membership, log_id_codec}

  -- A call that succeeds removes exactly the entries from the given index on, and one that fails
  -- removes none.
  pub delete_conflict_logs_since-Refines :
      (id : LogId) (s : System env) (log : List (Entry Membership))
      → Refines s log
      → let (r, s') = delete_conflict_logs_since env id s in
        Refines s' (settled r (where_index (λ i. ltb i id.index) log) log)
  unfolding delete_conflict_logs_since meaning
  delete_conflict_logs_since-Refines id s log a =
      rw
        (execute_or-at env law s.raft.log delete_logs_since (u64 id.index ∷ []) s.world
          log_write_error _ [] refl)
        (settled_both (λ (t : Tables) (l : List (Entry Membership)). Encodes env t.logs l)
          (delete_conflict_logs_since env id s).0 _ _ _ _
          (Encodes-select env (λ i. ltb i id.index) _ log a) a)

  -- What `purge_logs_upto` has done, however it ended: the last purged id is in the database, or
  -- nothing has changed and the call failed; the entries up to the id are gone if it succeeded, and
  -- all of them are there if it did not.
  pub record Purged (id : LogId) (before after : Tables) (log : List (Entry Membership))
      (r : Result StorageError Unit) : Type 0 where
    pub rows : Encodes env after.logs (settled r (where_index (λ i. ltb id.index i) log) log)
    pub marked :
        ((b : Bytes) × (log_id_codec.to_vec id ≡ ok b)
          × (after.kv ≡ update before.kv last_purged_id_key (some (blob b))))
        ⊎ ((after.kv ≡ before.kv) × (r ≢ ok tt))

  delete_upto-rows :
      (id : LogId) (s : System env) (log : List (Entry Membership))
      → Refines s log
      → let (r, s') = delete_upto env id s in
        Refines s' (settled r (where_index (λ i. ltb id.index i) log) log)
        × ((log_tables s').kv ≡ (log_tables s).kv)
  unfolding meaning
  delete_upto-rows id s log a =
      rw
        (execute_or-at env law s.raft.log delete_logs_upto (u64 id.index ∷ []) s.world
          log_write_error _ [] refl)
        (settled_both
          (λ (t : Tables) (l : List (Entry Membership)).
            Encodes env t.logs l × (t.kv ≡ (log_tables s).kv))
          (delete_upto env id s).0 _ _ _ _ (Encodes-select env (λ i. ltb id.index i) _ log a, refl)
          (a, refl))

  pub mark-ok :
      (id : LogId) (s : System env)
      → (set_last_purged_log_id env id s).0 ≡ ok tt
      → (b : Bytes) × (log_id_codec.to_vec id ≡ ok b)
        × (log_tables (set_last_purged_log_id env id s).1
            ≡ with_value (log_tables s) last_purged_id_key b)
  unfolding set_last_purged_log_id
  mark-ok id s o =
      let (b, g, v) =
        kv_put-views env law log_id_codec store_write_error s.raft.log last_purged_id_key s.world id
          o in
      (
        b,
        g,
        ap (λ f. f s.raft.log.tx) v ∙ stored-at (views s.world) s.raft.log.tx last_purged_id_key b,
      )

  pub mark-err :
      (id : LogId) (s : System env) (x : StorageError)
      → (set_last_purged_log_id env id s).0 ≡ err x
      → log_tables (set_last_purged_log_id env id s).1 ≡ log_tables s
  unfolding set_last_purged_log_id
  mark-err id s x o =
      ap (λ f. f s.raft.log.tx)
        (kv_put-views_err env law log_id_codec store_write_error s.raft.log last_purged_id_key
          s.world id x o)

  -- However `purge_logs_upto` ends: the last purged id is in the database, or nothing has changed and
  -- the call failed; exactly the entries up to the id are gone if it succeeded, and none if it
  -- failed.
  pub purge_logs_upto-Purged :
      (id : LogId) (s : System env) (log : List (Entry Membership))
      → Refines s log
      → let (r, s') = purge_logs_upto env id s in Purged id (log_tables s) (log_tables s') log r
  unfolding purge_logs_upto
  purge_logs_upto-Purged id s log a = elim (Result-cases (set_last_purged_log_id env id s).0) [
    | inr (x, o) ↦
        rw (>>=-err (set_last_purged_log_id env id) (λ _. delete_upto env id) s x o) (record {
          rows = rw (mark-err id s x o) a;
          marked = inr (ap (λ t. t.kv) (mark-err id s x o), λ p. cc);
        })
    | inl (_, o) ↦
        let (b, g, v) = mark-ok id s o in
        let (rows, same) = delete_upto-rows id (set_last_purged_log_id env id s).1 log (rw v a) in
        rw (>>=-ok (set_last_purged_log_id env id) (λ _. delete_upto env id) s tt o)
          (record { rows = rows; marked = inl (b, g, same ∙ ap (λ t. t.kv) v) })
  ]

-- ===== src/Raft/Calls/Settled.antt =====
-- The calls on the log's thread, and the live database.
use replicat.Prelude.{ℕ, String, List, [], ◌∷◌, ◌≡◌, ◌≢◌, sym, subst}
use replicat.Exec.{lift, with_err, pure, ◌>>=◌, >>=-keeps}
use replicat.Openraft.{LogId, Entry}
use replicat.Sql.{Sql, Param, u64, select_last_log, delete_logs_upto}
use replicat.Env.{Env, IsFaithful, Codec}
use replicat.Handle.{World, execute_or, fetch_one, fetch_all, from_row_bytes, from_row_i64s}
use replicat.Handle.Effects.{views}
use replicat.Kv.{kv_put, kv_get}
use replicat.Raft.{
  System, on_world, log_read_error, log_write_error, store_read_error, store_write_error,
  last_purged_id_key,
}
use replicat.Raft.Store.{set_last_purged_log_id, get_last_purged_log_id}
use replicat.Raft.Log.{
  append_to_log, append_entries, delete_upto, purge_logs_upto, get_last_log_entry, get_log_state,
  Range, logs_query, decode_entries, some_log_id, or_else, try_get_log_entries,
}
use replicat.Raft.Machine.Coherent.{data_tables, Matches, IsCoherent}
use replicat.Raft.Calls.Elsewhere.{
  execute_or-other, fetch_one-other, fetch_all-other, kv_put-other, kv_get-other,
  append_entries-other,
}

-- A store whose live database is not its log's, with the values of that database in memory.
pub record IsSettled {env : Env} (s : System env) : Type 0 where
  pub apart : s.raft.state_machine.data'.tx ≢ s.raft.log.tx
  pub coherent : IsCoherent s

module _ (env : Env) (law : IsFaithful env) where
  open env use {meta_codec}

  -- the threads after a call that leaves the live tables alone
  pub same-IsSettled :
      (s : System env) (w : World env)
      → IsSettled s
      → views w s.raft.state_machine.data'.tx ≡ data_tables s
      → IsSettled (record s { world = w })
  same-IsSettled s w k e = record {
    apart = k.apart;
    coherent = subst (Matches s.raft.state_machine) (sym e) k.coherent;
  }

  module _ (s : System env) (k : IsSettled s) where
    abbrev d : ℕ
    d = s.raft.state_machine.data'.tx

    pub put-IsSettled :
        {A : Type 0} (codec : Codec A) (key : String) (a : A)
        → IsSettled (on_world (kv_put env codec store_write_error s.raft.log key a) s).1
    put-IsSettled codec key a =
        same-IsSettled s (kv_put env codec store_write_error s.raft.log key a s.world).1 k
          (kv_put-other env s.raft.log d k.apart codec store_write_error key a s.world)

    pub get-IsSettled :
        {A : Type 0} (codec : Codec A) (key : String)
        → IsSettled (on_world (kv_get env codec store_read_error s.raft.log key) s).1
    get-IsSettled codec key =
        same-IsSettled s (kv_get env codec store_read_error s.raft.log key s.world).1 k
          (kv_get-other env s.raft.log d k.apart codec store_read_error key s.world)

    pub execute-IsSettled :
        (sql : Sql) (params : List Param)
        → IsSettled (on_world (execute_or env log_write_error s.raft.log sql params) s).1
    execute-IsSettled sql params =
        same-IsSettled s (execute_or env log_write_error s.raft.log sql params s.world).1 k
          (execute_or-other env s.raft.log d k.apart log_write_error sql params s.world)

    pub appends-IsSettled :
        (es : List (Entry env.Membership)) → IsSettled (append_to_log env es s).1
    unfolding append_to_log
    appends-IsSettled es =
        same-IsSettled s (append_entries env s.raft.log es s.world).1 k
          (append_entries-other env s.raft.log d k.apart es s.world)

    pub reads_log-IsSettled : (range : Range) → IsSettled (try_get_log_entries env range s).1
    unfolding try_get_log_entries
    reads_log-IsSettled range =
        let read =
          with_err (λ _. log_read_error)
            (fetch_all env s.raft.log (from_row_bytes env) (logs_query range) []) in
        let same =
          fetch_all-other env s.raft.log d k.apart (from_row_bytes env) (logs_query range) []
            s.world in
        same-IsSettled s _ k (
          >>=-keeps (λ w'. views w' d ≡ data_tables s) read (λ es. lift (decode_entries env es))
            s.world same (λ _ _. same))

    last-IsSettled : IsSettled (get_last_log_entry env s).1
    unfolding get_last_log_entry
    last-IsSettled =
        let read =
          with_err (λ _. log_read_error)
            (fetch_one env s.raft.log (from_row_i64s env) select_last_log []) in
        let same =
          fetch_one-other env s.raft.log d k.apart (from_row_i64s env) select_last_log [] s.world in
        same-IsSettled s _ k (
          >>=-keeps (λ w'. views w' d ≡ data_tables s) read (λ row. pure (some_log_id env row))
            s.world same (λ _ _. same))

  pub purges-IsSettled :
      (id : LogId) (s : System env) → IsSettled s → IsSettled (purge_logs_upto env id s).1
  unfolding purge_logs_upto set_last_purged_log_id
  purges-IsSettled id s k =
      let marked = put-IsSettled s k env.log_id_codec last_purged_id_key id in
      >>=-keeps IsSettled (set_last_purged_log_id env id) (λ _. delete_upto env id) s marked
        λ _ _.
          execute-IsSettled (set_last_purged_log_id env id s).1 marked delete_logs_upto
            (u64 id.index ∷ [])

  pub reads_state-IsSettled : (s : System env) → IsSettled s → IsSettled (get_log_state env s).1
  unfolding get_log_state get_last_purged_log_id
  reads_state-IsSettled s k =
      let last = last-IsSettled s k in
      >>=-keeps IsSettled (get_last_log_entry env)
        (λ last_log_id. get_last_purged_log_id env >>= λ purged.
          pure
            (record { last_purged_log_id = purged; last_log_id = or_else env last_log_id purged }))
        s last
        λ last_log_id _.
          let s1 = (get_last_log_entry env s).1 in
          let read = get-IsSettled s1 last env.log_id_codec last_purged_id_key in
          >>=-keeps IsSettled (get_last_purged_log_id env)
            (λ purged. pure (record {
              last_purged_log_id = purged;
              last_log_id = or_else env last_log_id purged;
            }))
            s1 read (λ _ _. read)

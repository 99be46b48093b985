-- ===== src/Raft/Log/State.antt =====
-- `get_log_state` against the abstract log.
use replicat.Prelude.{Option-cases, ◌≡◌, refl, inl, inr, ap, arith, Option, List, [], get_last}
use replicat.Prelude.Int.{ℤ, pos}
use replicat.Exec.{Result, ok, Result-cases, pure, ◌>>=◌, >>=-eq-ok}
use replicat.Openraft.{LogId, LogState, Entry}
use replicat.Sql.{select_last_log}
use replicat.Sql.Tables.{LogRow, meaning, id_row, rows_of}
use replicat.Env.{Env, IsFaithful, SqlError}
use replicat.Handle.{World, first_row, from_row_i64s, fetch_one}
use replicat.Handle.Effects.{fetch_one-views, fetch_one-rows}
use replicat.Kv.Effects.{Keeps, kv_get-Keeps}
use replicat.Raft.{System, Storage, last_purged_id_key, store_read_error}
use replicat.Raft.Store.{get_last_purged_log_id}
use replicat.Raft.Log.{get_last_log_entry, get_log_state, or_else, some_log_id}
use replicat.Raft.Log.Abstract.{Encodes-last, last_id, last_row_id}
use replicat.Raft.Log.Writes.{log_tables, Refines}

module _ (env : Env) (law : IsFaithful env) where
  open env use {Membership, log_id_codec, i64_from_sql}

  -- the columns of the last row, cast back
  last_columns :
      (rs : List LogRow) (r : Option (ℤ × ℤ × ℤ))
      → first_row env (from_row_i64s env) (ok (rows_of id_row (get_last rs))) ≡ ok r
      → some_log_id env r ≡ last_row_id rs
  last_columns rs r e = elim (Option-cases (get_last rs)) [
    | inl g ↦ ground arith
    | inr (x, g) ↦
        ground
          (arith, law.i64_ok (pos x.node_id), law.i64_ok (pos x.log_index), law.i64_ok (pos x.term))
  ]

  abbrev last_columns_of : System env → Result SqlError (Option (ℤ × ℤ × ℤ)) × World env
  last_columns_of s = fetch_one env s.raft.log (from_row_i64s env) select_last_log [] s.world

  get_last_log_entry-last :
      (s : System env) (log : List (Entry Membership)) (r : Option LogId)
      → Refines s log
      → (get_last_log_entry env s).0 ≡ ok r
      → r ≡ last_id log
  unfolding get_last_log_entry meaning
  get_last_log_entry-last s log r a e = elim (Result-cases (last_columns_of s).0) [
    | inr (x, g) ↦ ground arith
    | inl (row, g) ↦
        let (got, shown, first, _) =
          fetch_one-rows env law s.raft.log select_last_log [] s.world (from_row_i64s env) _ _ row
            refl g in
        let same = last_columns (log_tables s).logs row (rw (← shown) first) in
        ground (arith, same, Encodes-last env (log_tables s).logs log a)
  ]

  get_last_log_entry-tables :
      (s : System env) → log_tables (get_last_log_entry env s).1 ≡ log_tables s
  unfolding get_last_log_entry meaning
  get_last_log_entry-tables s = ground (
    arith,
    ap (λ v. v s.raft.log.tx)
        (fetch_one-views env law s.raft.log select_last_log [] s.world (from_row_i64s env) _ refl),
  )

  read_purged :
      (s : System env) (purged r : Option LogId)
      → Keeps log_id_codec ((log_tables s).kv last_purged_id_key) purged
      → (get_last_purged_log_id env s).0 ≡ ok r
      → r ≡ purged
  unfolding get_last_purged_log_id
  read_purged s purged r k e =
      kv_get-Keeps env law log_id_codec store_read_error s.raft.log last_purged_id_key s.world
        law.log_id_ok purged r k e

  -- the rest of `get_log_state`, after its first call and after its second
  abbrev state_of : Option LogId → Option LogId → Storage env LogState
  state_of last purged =
      pure (record { last_purged_log_id = purged; last_log_id = or_else env last purged })

  abbrev with_purged : Option LogId → Storage env LogState
  with_purged last = get_last_purged_log_id env >>= state_of last

  -- A successful call returns the purged id that the database keeps, and as the last id that of the
  -- last entry of the log, or the purged one if the log is empty.
  pub get_log_state_lem :
      (s : System env) (log : List (Entry Membership)) (purged : Option LogId) (st : LogState)
      → Refines s log
      → Keeps log_id_codec ((log_tables s).kv last_purged_id_key) purged
      → (get_log_state env s).0 ≡ ok st
      → (st.last_purged_log_id ≡ purged) × (st.last_log_id ≡ or_else env (last_id log) purged)
  unfolding get_log_state
  get_log_state_lem s log purged st a k e =
      let s' = (get_last_log_entry env s).1 in
      let (last, o, e', _) = >>=-eq-ok (get_last_log_entry env) (with_purged) s st e in
      let (was, p, e'', _) = >>=-eq-ok (get_last_purged_log_id env) (state_of last) s' st e' in
      let r = get_last_log_entry-last s log last a o in
      let q = read_purged s' purged was (rw (get_last_log_entry-tables s) k) p in ground arith

-- ===== src/Handle/Copy.antt =====
-- `create_memory_copy` and `create_memory_view` of src/storage/mod.rs.
use replicat.Prelude.{fun_ext, ◌≡◌, sym, ap, ◌∙◌, inl, inr, arith, [], ◌∷◌}
use replicat.Exec.{
  Result, ok, err, Exec, Result-cases, map_ok, map_ok-eq-ok, lift, ◌>>◌, ◌>>=◌, >>=-eq-ok,
}
use replicat.Sql.{Bytes, Sql, pragma_journal_off, pragma_synchronous_off, pragma_temp_store}
use replicat.Env.{Env, IsFaithful, SqlError, no_rows}
use replicat.Handle.{
  set_at, StorageHandle, World, Sqlite, submit_task, serialize_db, deserialize_db, spawn,
}
use replicat.Handle.Effects.{views}

module _ (env : Env) where
  open env use {Conn}

  -- `query_row(.., |_| Ok(()))`, and `execute` where the count is dropped
  abbrev query_row : Sql → Exec Conn SqlError Unit
  query_row sql conn =
      let (rows, conn') = env.run_query conn sql [] in
      elim rows [
        | err e ↦ (err e, conn')
        | ok [] ↦ (err no_rows, conn')
        | ok (_ ∷ _) ↦ (ok tt, conn')
      ]

  abbrev run : Sql → Exec Conn SqlError Unit
  run sql conn = let (n, conn') = env.run_execute conn sql [] in (map_ok (λ _. tt) n, conn')

  -- the calls on the new connection, given the bytes of the old one
  abbrev load_data : Result SqlError Bytes → Exec Conn SqlError Unit
  load_data data' = lift data' >>= deserialize_db env

  abbrev set_up_last : Result SqlError Bytes → Exec Conn SqlError Unit
  set_up_last data' = run pragma_temp_store >> load_data data'

  abbrev set_up_rest : Result SqlError Bytes → Exec Conn SqlError Unit
  set_up_rest data' = run pragma_synchronous_off >> set_up_last data'

  abbrev set_up_view : Result SqlError Bytes → Exec Conn SqlError Unit
  set_up_view data' = query_row pragma_journal_off >> set_up_rest data'

  abbrev view_of : Conn → Result SqlError Conn → Result SqlError Conn
  view_of disk (err e) = err e
  view_of disk (ok view) =
      let (r, view') = set_up_view (serialize_db env disk).0 view in map_ok (λ _. view') r

  unfoldable pub create_memory_view : Conn → Result SqlError Conn
  unfolding serialize_db deserialize_db
  create_memory_view disk = view_of disk env.open_in_memory

  unfoldable pub create_memory_copy : StorageHandle → Sqlite env StorageHandle
  unfolding create_memory_view submit_task
  create_memory_copy h = do
    conn ← submit_task env h (λ conn. (create_memory_view conn, conn))
    spawn env conn

module _ (env : Env) (law : IsFaithful env) where
  open env use {Conn}

  load-view :
      (b : Bytes) (view : Conn)
      → (deserialize_db env b view).0 ≡ ok tt
      → env.tables (deserialize_db env b view).1 ≡ env.image_tables b
  unfolding deserialize_db
  load-view b view e = ground (arith, law.deserialize_ok view b)

  set_up_view-tables :
      (data' : Result SqlError Bytes) (view : Conn)
      → (set_up_view env data' view).0 ≡ ok tt
      → (b : Bytes) × (data' ≡ ok b)
        × (env.tables (set_up_view env data' view).1 ≡ env.image_tables b)
  set_up_view-tables data' v0 e =
      let (_, _, e1, s1) =
        >>=-eq-ok (query_row env pragma_journal_off) (λ _. set_up_rest env data') v0 tt e in
      let v1 = (query_row env pragma_journal_off v0).1 in
      let (_, _, e2, s2) =
        >>=-eq-ok (run env pragma_synchronous_off) (λ _. set_up_last env data') v1 tt e1 in
      let v2 = (run env pragma_synchronous_off v1).1 in
      let (_, _, e3, s3) =
        >>=-eq-ok (run env pragma_temp_store) (λ _. load_data env data') v2 tt e2 in
      let v3 = (run env pragma_temp_store v2).1 in
      let (b, o4, e4, s4) = >>=-eq-ok (lift data') (deserialize_db env) v3 tt e3 in
      (b, o4, ap (λ z. env.tables z.1) (s1 ∙ s2 ∙ s3 ∙ s4) ∙ load-view b v3 e4)

  serialize_db-tables :
      (disk : Conn) (b : Bytes)
      → (serialize_db env disk).0 ≡ ok b
      → env.image_tables b ≡ env.tables disk
  unfolding serialize_db
  serialize_db-tables disk b e = ground (arith, law.serialize_ok disk b)

  create_memory_view-tables :
      (disk view : Conn) → create_memory_view env disk ≡ ok view → env.tables view ≡ env.tables disk
  unfolding create_memory_view
  create_memory_view-tables disk view e = elim (Result-cases env.open_in_memory) [
    | inr (x, g) ↦ ground arith
    | inl (v0, g) ↦
        let data' = (serialize_db env disk).0 in
        let (_, o, same) =
          map_ok-eq-ok (λ _. (set_up_view env data' v0).1) (set_up_view env data' v0).0 view
            (rw (← ap (view_of env disk) g) e) in
        let (b, p, q) = set_up_view-tables data' v0 o in
        ap env.tables (sym same) ∙ q ∙ serialize_db-tables disk b p
  ]

  -- A copy that was made has a new thread, with the tables that the database has, and every other
  -- thread keeps its own.
  pub create_memory_copy-tables :
      (h h' : StorageHandle) (w : World env)
      → (create_memory_copy env h w).0 ≡ ok h'
      → (h'.tx ≡ w.spawned)
        × (views (create_memory_copy env h w).1 ≡ set_at (views w) w.spawned (views w h.tx))
  unfolding create_memory_copy submit_task
  create_memory_copy-tables h h' w e = elim (Result-cases (create_memory_view env (w.conns h.tx))) [
    | inr (x, g) ↦ ground arith
    | inl (view, g) ↦
        let same = create_memory_view-tables (w.conns h.tx) view g in
        (ground arith, fun_ext λ i. ground (arith, same))
  ]

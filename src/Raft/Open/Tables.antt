-- ===== src/Raft/Open/Tables.antt =====
-- What the calls of `RaftStore::open` in src/storage/raft.rs do to the tables of the databases.
use replicat.Prelude.{
  fun_ext, Bool-cases, ◌==◌, ℕ, ◌+◌, ◌≡◌, ◌≢◌, refl, inl, inr, arith, ◌∙◌, ap, some, subst, List,
  [],
}
use replicat.Exec.{Result, ok, Result-cases, settled, settled_same, Exec, pure, ◌>>=◌, >>=-keeps}
use replicat.Sql.{
  Sql, Param, Row, create_kv_table, create_logs_table, pragma_journal_mode, pragma_synchronous,
  pragma_temp_store,
}
use replicat.Sql.Tables.{meaning}
use replicat.Env.{Env, IsFaithful, FilePath, SqlError}
use replicat.Handle.{
  StorageHandle, World, execute, fetch_one, from_row_string, open_handle, submit_task,
}
use replicat.Handle.Effects.{
  views, execute-views, execute-views_err, execute_or-views, set_at_self, set_at_lem,
}
use replicat.Kv.Effects.{kv_get-views}
use replicat.Raft.{last_log_key, last_membership_key}
use replicat.Raft.Machine.Restart.{
  create, read_log, read_membership, read_both, with_membership, machine_of,
}
use replicat.Raft.Open.{create_state_machine, setup_log_store}

-- However the call ends, it leaves the tables of one thread alone.
abbrev pub Keeping : {env : Env} {E A : Type 0} → ℕ → Exec (World env) E A → Type 0
Keeping {env} i m = (w : World env) → views (m w).1 i ≡ views w i

module _ (env : Env) where
  >>=-Keeping :
      {E A B : Type 0} (i : ℕ) (m : Exec (World env) E A) (f : A → Exec (World env) E B)
      → Keeping i m
      → ((a : A) → Keeping i (f a))
      → Keeping i (m >>= f)
  >>=-Keeping i m f p q w =
      >>=-keeps (λ w'. views w' i ≡ views w i) m f w (p w) λ a _. q a (m w).1 ∙ p w

  -- what `setup_log_store` still runs after each of its statements but the last
  abbrev create_kv : StorageHandle → Exec (World env) SqlError Unit
  create_kv h = execute env h create_kv_table [] >>= λ _. pure tt

  abbrev create_both : StorageHandle → Exec (World env) SqlError Unit
  create_both h = execute env h create_logs_table [] >>= λ _. create_kv h

  abbrev set_temp_store : StorageHandle → Exec (World env) SqlError Unit
  set_temp_store h = execute env h pragma_temp_store [] >>= λ _. create_both h

  abbrev set_synchronous : StorageHandle → Exec (World env) SqlError Unit
  set_synchronous h = execute env h pragma_synchronous [] >>= λ _. set_temp_store h

  -- the statements of `setup_log_store`, in its order
  setup_log_store-Keeping :
      (i : ℕ) (h : StorageHandle)
      → Keeping i (fetch_one env h (from_row_string env) pragma_journal_mode [])
      → Keeping i (execute env h pragma_synchronous [])
      → Keeping i (execute env h pragma_temp_store [])
      → Keeping i (execute env h create_logs_table [])
      → Keeping i (execute env h create_kv_table [])
      → Keeping i (setup_log_store env h)
  unfolding setup_log_store
  setup_log_store-Keeping i h p q r s t =
      let kv = >>=-Keeping i (execute env h create_kv_table []) (λ _. pure tt) t λ _ _. refl in
      let both = >>=-Keeping i (execute env h create_logs_table []) (λ _. create_kv h) s λ _. kv in
      let temp =
        >>=-Keeping i (execute env h pragma_temp_store []) (λ _. create_both h) r λ _. both in
      let settings =
        >>=-Keeping i (execute env h pragma_synchronous []) (λ _. set_temp_store h) q λ _. temp in
      >>=-Keeping i (fetch_one env h (from_row_string env) pragma_journal_mode [])
        (λ _. set_synchronous h) p λ _. settings

  module _ (h : StorageHandle) (i : ℕ) (other : i ≢ h.tx) where
    execute-elsewhere : (s : Sql) (ps : List Param) → Keeping i (execute env h s ps)
    unfolding execute submit_task
    execute-elsewhere s ps w = ground arith

    fetch_one-elsewhere :
        {A : Type 0} (from_row : Row → Result SqlError A) (s : Sql) (ps : List Param)
        → Keeping i (fetch_one env h from_row s ps)
    unfolding fetch_one submit_task
    fetch_one-elsewhere from_row s ps w = ground arith

    pub setup_log_store-elsewhere : Keeping i (setup_log_store env h)
    setup_log_store-elsewhere =
        setup_log_store-Keeping i h
          (fetch_one-elsewhere (from_row_string env) pragma_journal_mode [])
          (execute-elsewhere pragma_synchronous []) (execute-elsewhere pragma_temp_store [])
          (execute-elsewhere create_logs_table []) (execute-elsewhere create_kv_table [])

  -- A thread that is spawned for a file shows the tables of that file, and the others are as before.
  pub open_handle-tables :
      (path : FilePath) (h : StorageHandle) (w : World env)
      → (open_handle env path w).0 ≡ ok h
      → let w' = (open_handle env path w).1 in
        (c : env.Conn) × (env.open_conn path ≡ ok c)
        × (h.tx ≡ w.spawned)
        × (w'.spawned ≡ w.spawned + 1)
        × (views w' h.tx ≡ env.tables c)
        × ((i : ℕ) → i ≢ w.spawned → views w' i ≡ views w i)
  unfolding open_handle
  open_handle-tables path h w e = elim (Result-cases (env.open_conn path)) [
    | inr (x, g) ↦ ground arith
    | inl (c, g) ↦ (c, g, ground arith, ground arith, ground arith, λ i other. ground arith)
  ]

module _ (env : Env) (law : IsFaithful env) where
  open env use {log_id_codec, membership_codec}

  unchanged :
      (h : StorageHandle) (s : Sql)
      → ((w : World env) → meaning s [] (views w h.tx) ≡ some (views w h.tx, []))
      → Keeping h.tx (execute env h s [])
  unchanged h s m w = elim (Result-cases (execute env h s [] w).0) [
    | inl (n, e) ↦
        ap (λ v. v h.tx) (execute-views env law h s [] w (views w h.tx) [] n (m w) e)
        ∙ set_at_lem (views w) h.tx (views w h.tx)
    | inr (x, e) ↦ ap (λ v. v h.tx) (execute-views_err env law h s [] w x e)
  ]

  -- `setup_log_store` changes no row
  pub setup_log_store-tables : (h : StorageHandle) → Keeping h.tx (setup_log_store env h)
  unfolding meaning fetch_one execute submit_task
  setup_log_store-tables h =
      setup_log_store-Keeping env h.tx h (λ w. ground (arith, law.journal_mode_ok (w.conns h.tx)))
        (λ w. ground (arith, law.synchronous_ok (w.conns h.tx)))
        (λ w. ground (arith, law.temp_store_ok (w.conns h.tx)))
        (unchanged h create_logs_table λ w. refl) (unchanged h create_kv_table λ w. refl)

  -- opening the state machine changes no row
  pub create_state_machine-views :
      (h : StorageHandle) (w : World env) → views (create_state_machine env h w).1 ≡ views w
  unfolding create_state_machine meaning
  create_state_machine-views h w =
      let w1 = (create env law h w).1 in
      let w2 = (read_log env law h w1).1 in
      let made =
        execute_or-views env law h create_kv_table [] w tt (views w h.tx) [] refl
        ∙ ap (λ v. settled (create env law h w).0 v (views w)) (set_at_self (views w) h.tx)
        ∙ settled_same (create env law h w).0 (views w) in
      let log = kv_get-views env law log_id_codec tt h last_log_key w1 ∙ made in
      >>=-keeps (λ w'. views w' ≡ views w) (create env law h) (λ _. read_both env law h) w made
        λ _ _.
          >>=-keeps (λ w'. views w' ≡ views w) (read_log env law h) (with_membership env law h) w1
            log
            λ last _.
              >>=-keeps (λ w'. views w' ≡ views w) (read_membership env law h)
                (λ mem. pure (machine_of env law h last mem)) w2
                (kv_get-views env law membership_codec tt h last_membership_key w2 ∙ log)
                λ mem _. kv_get-views env law membership_codec tt h last_membership_key w2 ∙ log

  pub setup_log_store-views :
      (h : StorageHandle) (w : World env) → views (setup_log_store env h w).1 ≡ views w
  setup_log_store-views h w = fun_ext λ i. elim (Bool-cases (i == h.tx)) [
    | inl e ↦
        subst (λ j. views (setup_log_store env h w).1 j ≡ views w j) (ground arith)
          (setup_log_store-tables h w)
    | inr e ↦ setup_log_store-elsewhere env h i (λ same. ground arith) w
  ]

-- ===== src/Raft/Store/Counter.antt =====
-- The counter of snapshots in the log's database.
use replicat.Prelude.{
  ℕ, zero, suc, ◌+◌, ◌^◌, ◌<◌, ◌≡◌, subst, ap, ◌∙◌, arith, Option, none, some, List, [], ◌∷◌,
}
use replicat.Prelude.Int.{ℤ, pos}
use replicat.Exec.{ok, Exec, with_err, pure, >>=-eq-ok, map_err-eq-ok}
use replicat.Openraft.{StorageError}
use replicat.Sql.{Value, Row, integer, key, kv_increment, kv_insert_zero}
use replicat.Sql.Tables.{Tables, meaning, succ_int, counted, increment, insert_zero}
use replicat.Env.{Env, IsFaithful}
use replicat.Handle.{StorageHandle, World, fetch_one, execute_or, first_row, from_row_i64}
use replicat.Handle.Effects.{views, set_at_lem, fetch_one-rows, execute_or-at}
use replicat.Raft.{System, snapshot_index_key, store_read_error}
use replicat.Raft.Store.{get_and_inc_snapshot_index, count_snapshot}
use replicat.Raft.Log.Writes.{log_tables}

-- How many snapshots were counted: the cell is empty before the first, and then holds the index
-- of the last one.
abbrev pub Counted : Option Value → ℕ → Type 0
Counted cell zero = cell ≡ none
Counted cell (suc n) = cell ≡ some (integer (pos n))

module _ (env : Env) (law : IsFaithful env) where
  abbrev Step : Type 0 → Type 0
  Step A = Exec (World env) StorageError A

  -- the calls of `get_and_inc_snapshot_index`
  abbrev count : StorageHandle → Step (Option ℤ)
  count h =
      with_err (λ _. store_read_error)
        (fetch_one env h (from_row_i64 env) kv_increment (key snapshot_index_key ∷ []))

  abbrev start : StorageHandle → Step Unit
  start h = execute_or env store_read_error h kv_insert_zero (key snapshot_index_key ∷ [])

  abbrev cell : StorageHandle → World env → Option Value
  cell h w = (views w h.tx).kv snapshot_index_key

  count-row :
      (h : StorageHandle) (w : World env) (t : Tables) (want : List Row) (raw : Option ℤ)
      → meaning kv_increment (key snapshot_index_key ∷ []) (views w h.tx) ≡ some (t, want)
      → (count h w).0 ≡ ok raw
      → (first_row env (from_row_i64 env) (ok want) ≡ ok raw) × (views (count h w).1 h.tx ≡ t)
  count-row h w t want raw m o =
      let fetched =
        fetch_one env h (from_row_i64 env) kv_increment (key snapshot_index_key ∷ []) w in
      let (got, shown, first, v) =
        fetch_one-rows env law h kv_increment (key snapshot_index_key ∷ []) w (from_row_i64 env) t
          want raw m (map_err-eq-ok _ fetched.0 raw o) in
      (rw (← shown) first, ap (λ f. f h.tx) v ∙ set_at_lem (views w) h.tx t)

  count-first :
      (h : StorageHandle) (w : World env) (raw : Option ℤ)
      → cell h w ≡ none
      → (count h w).0 ≡ ok raw
      → (raw ≡ none) × (views (count h w).1 h.tx ≡ views w h.tx)
  unfolding meaning
  count-first h w raw c o =
      let t = views w h.tx in
      let (first, v) = count-row h w t [] raw (ap (increment snapshot_index_key t) c) o in
      (ground (arith, first), v)

  count-next :
      (h : StorageHandle) (w : World env) (raw : Option ℤ) (n : ℕ)
      → n + 1 < 2 ^ 63
      → cell h w ≡ some (integer (pos n))
      → (count h w).0 ≡ ok raw
      → (raw ≡ some (pos (n + 1))) × (cell h (count h w).1 ≡ some (integer (pos (n + 1))))
  unfolding meaning
  count-next h w raw n small c o =
      let t = views w h.tx in
      let in_range : succ_int (pos n) ≡ some (pos (n + 1)) = ground arith in
      let (first, v) =
        count-row h w _ _ raw
          (ap (increment snapshot_index_key t) c ∙ ap (counted snapshot_index_key t) in_range) o in
      (ground (arith, first, law.i64_ok (pos (n + 1))), ap (λ x. x.kv snapshot_index_key) v)

  start-cell :
      (h : StorageHandle) (w : World env)
      → cell h w ≡ none
      → (start h w).0 ≡ ok tt
      → cell h (start h w).1 ≡ some (integer (pos 0))
  unfolding meaning
  start-cell h w c o =
      let t = views w h.tx in
      let at =
        execute_or-at env law h kv_insert_zero (key snapshot_index_key ∷ []) w store_read_error _ []
          (ap (insert_zero snapshot_index_key t) c) in
      ap (λ x. x.kv snapshot_index_key) (rw o at at)

  -- A call that succeeds returns the number of the calls before it, and has counted itself, if the
  -- counter holds that number and it is below 2^63.
  pub get_and_inc_snapshot_index-Counted :
      (n idx : ℕ) (s : System env)
      → n < 2 ^ 63
      → Counted ((log_tables s).kv snapshot_index_key) n
      → (get_and_inc_snapshot_index env s).0 ≡ ok idx
      → (idx ≡ n)
        × Counted ((log_tables (get_and_inc_snapshot_index env s).1).kv snapshot_index_key) (suc n)
  unfolding get_and_inc_snapshot_index count_snapshot
  get_and_inc_snapshot_index-Counted zero idx s small c o =
      let h = s.raft.log in
      let (raw, o1, e1, s1) = >>=-eq-ok (count h) (count_snapshot env h) s.world idx o in
      let (first, v) = count-first h s.world raw c o1 in
      let w1 = (count h s.world).1 in
      let e2 = subst (λ (z : Option ℤ). (count_snapshot env h z w1).0 ≡ ok idx) first e1 in
      let (_, o3, e3, s3) = >>=-eq-ok (start h) (λ _. pure 0) w1 idx e2 in
      (
        ground (arith, e3),
        ap (λ z. cell h z.1) s1
            ∙ ap (λ (z : Option ℤ). cell h (count_snapshot env h z w1).1) first
            ∙ ap (λ z. cell h z.1) s3
            ∙ start-cell h w1 (ap (λ x. x.kv snapshot_index_key) v ∙ c) o3,
      )
  get_and_inc_snapshot_index-Counted (suc n) idx s small c o =
      let h = s.raft.log in
      let (raw, o1, e1, s1) = >>=-eq-ok (count h) (count_snapshot env h) s.world idx o in
      let (first, v) = count-next h s.world raw n (omega arith) c o1 in
      let w1 = (count h s.world).1 in
      let e2 = subst (λ (z : Option ℤ). (count_snapshot env h z w1).0 ≡ ok idx) first e1 in
      (
        ground (arith, e2),
        ap (λ z. cell h z.1) s1
            ∙ ap (λ (z : Option ℤ). cell h (count_snapshot env h z w1).1) first
            ∙ v
            ∙ ap (λ k. some (integer (pos k))) (omega arith),
      )

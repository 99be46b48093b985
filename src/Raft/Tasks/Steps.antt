-- ===== src/Raft/Tasks/Steps.antt =====
-- What a step of the task that builds a snapshot leaves alone.
use replicat.Prelude.{ℕ, ◌≡◌, ◌≢◌, refl, ap, ◌∙◌, inl, inr, Option, none, some, [], ◌∷◌}
use replicat.Prelude.Int.{ℤ}
use replicat.Exec.{Exec, ok, err, Result-cases, pure, >>=-keeps}
use replicat.Openraft.{StorageError}
use replicat.Sql.{Bytes, key, kv_increment, kv_insert_zero}
use replicat.Sql.Tables.{Tables}
use replicat.Env.{Env, IsFaithful}
use replicat.Handle.{StorageHandle, World, execute_or, from_row_i64}
use replicat.Handle.Effects.{views}
use replicat.Kv.{kv_put}
use replicat.Kv.Effects.{stored-at, kv_put-views, kv_put-views_err}
use replicat.Raft.{
  System, on_world, snapshot_index_key, last_log_key, last_membership_key, snapshot_meta_key,
  store_read_error,
}
use replicat.Raft.Store.{count_snapshot}
use replicat.Raft.Machine.Coherent.{data_tables}
use replicat.Raft.Snapshots.{Meta, write_snapshot_meta, write_snapshot_file, store_snapshot}
use replicat.Raft.Snapshots.Files.{schema-views, serialize_if-views, write_snapshot_file-conns}
use replicat.Raft.Calls.Elsewhere.{execute_or-other, fetch_one-other}
use replicat.Raft.Tasks.{
  Builder, starts, read_applied, counts, begins_count, marks, names, dumps, stores, built, goes_on,
  builds, increment, mark, find_name, dump, store_file, unbuilt, snapshot_meta, dumped, done,
  builder_move,
}

-- what holds after each way that a call ends holds where the task goes on
pub goes_on-keeps {κ} :
    {env : Env} {E A T : Type 0} (P : T → System env → Type κ) (next : A → T) (fails : E → T)
    (call : Exec (System env) E A) (s : System env)
    → ((a : A) → (call s).0 ≡ ok a → P (next a) (call s).1)
    → ((x : E) → (call s).0 ≡ err x → P (fails x) (call s).1)
    → P (goes_on env next fails call s).0 (goes_on env next fails call s).1
goes_on-keeps P next fails call s p q = elim (Result-cases (call s).0) [
  | inl (a, e) ↦ rw (goes_on, e) (p a e)
  | inr (x, e) ↦ rw (goes_on, e) (q x e)
]

-- the two values of the state machine are the same
abbrev pub SameValues : Tables → Tables → Type 0
SameValues t t' =
    (t'.kv last_log_key ≡ t.kv last_log_key)
    × (t'.kv last_membership_key ≡ t.kv last_membership_key)

same-SameValues : (t t' : Tables) → t' ≡ t → SameValues t t'
same-SameValues t t' e =
    (ap (λ (t : Tables). t.kv last_log_key) e, ap (λ (t : Tables). t.kv last_membership_key) e)

-- a call leaves the store as it was, and the two values in the live database
abbrev pub Kept : {env : Env} → System env → System env → Type 0
Kept s s' =
    (s'.raft ≡ s.raft) × SameValues (data_tables s) (views s'.world s.raft.state_machine.data'.tx)

module _ (env : Env) (law : IsFaithful env) where
  call-Kept :
      {A : Type 0} (next : A → Builder env) (call : Exec (World env) StorageError A)
      (s : System env)
      → SameValues (data_tables s) (views (call s.world).1 s.raft.state_machine.data'.tx)
      → Kept s (builds env next call s).1
  call-Kept next call s same =
      goes_on-keeps (λ _ s'. Kept s s') next (unbuilt env) (on_world call) s (λ _ _. (refl, same))
        (λ _ _. (refl, same))

  count-other :
      (h : StorageHandle) (o : Option ℤ) (w : World env) (i : ℕ)
      → i ≢ h.tx
      → views (count_snapshot env h o w).1 i ≡ views w i
  unfolding count_snapshot
  count-other h none w i other =
      let same =
        execute_or-other env h i other store_read_error kv_insert_zero (key snapshot_index_key ∷ [])
          w in
      >>=-keeps (λ w'. views w' i ≡ views w i)
        (execute_or env store_read_error h kv_insert_zero (key snapshot_index_key ∷ []))
        (λ _. pure 0) w same (λ _ _. same)
  count-other h (some v) w i other = refl

  meta-SameValues :
      (h : StorageHandle) (meta : Meta env) (w : World env)
      → SameValues (views w h.tx) (views (write_snapshot_meta env h meta w).1 h.tx)
  unfolding write_snapshot_meta
  meta-SameValues h meta w =
      elim (Result-cases (kv_put env env.meta_codec tt h snapshot_meta_key meta w).0) [
        | inl (_, o) ↦
            let (b, _, v) = kv_put-views env law env.meta_codec tt h snapshot_meta_key w meta o in
            let stored = ap (λ f. f h.tx) v ∙ stored-at (views w) h.tx snapshot_meta_key b in
            (
              ap (λ (t : Tables). t.kv last_log_key) stored,
              ap (λ (t : Tables). t.kv last_membership_key) stored,
            )
        | inr (x, o) ↦ same-SameValues _ _ (
            ap (λ f. f h.tx)
              (kv_put-views_err env law env.meta_codec tt h snapshot_meta_key w meta x o))
      ]

  store-same :
      (path : _) (b : Bytes) (w : World env) (i : ℕ)
      → views (store_snapshot env path (some b) w).1 i ≡ views w i
  unfolding store_snapshot
  store-same path b w i =
      let same =
        ap (λ (cs : ℕ → env.Conn). env.tables (cs i))
          (write_snapshot_file-conns env law path b w) in
      >>=-keeps (λ w'. views w' i ≡ views w i) (write_snapshot_file env path b) (λ _. pure b) w same
        (λ _ _. same)

  pub builder_move-Kept :
      (b : Builder env) (s : System env)
      → s.raft.state_machine.data'.tx ≢ s.raft.log.tx
      → Kept s (builder_move env b s).1
  unfolding builder_move
  builder_move-Kept starts s apart = (refl, (refl, refl))
  builder_move-Kept (read_applied last) s apart = (refl, (refl, refl))
  builder_move-Kept (counts last m) s apart =
      let d = s.raft.state_machine.data'.tx in
      let keys = key snapshot_index_key ∷ [] in
      call-Kept (begins_count last m) (increment env s.raft) s (
        same-SameValues _ _
          (fetch_one-other env s.raft.log d apart (from_row_i64 env) kv_increment keys s.world))
  builder_move-Kept (begins_count last m index) s apart =
      call-Kept (λ idx. marks (snapshot_meta env last m idx)) (count_snapshot env s.raft.log index)
        s
        (same-SameValues _ _
          (count-other s.raft.log index s.world s.raft.state_machine.data'.tx apart))
  builder_move-Kept (marks meta) s apart =
      call-Kept (λ _. names meta) (mark env s.raft meta) s
        (meta-SameValues s.raft.state_machine.data' meta s.world)
  builder_move-Kept (names meta) s apart =
      let h = s.raft.state_machine.data' in
      call-Kept (dumps meta) (find_name env s.raft) s
        (same-SameValues _ _ (ap (λ f. f h.tx) (schema-views env law h s.world)))
  builder_move-Kept (dumps meta name) s apart =
      let h = s.raft.state_machine.data' in
      call-Kept (dumped env meta) (dump env s.raft name) s
        (same-SameValues _ _ (ap (λ f. f h.tx) (serialize_if-views env law h name s.world)))
  builder_move-Kept (stores meta b) s apart =
      let path = s.raft.snapshot_path in
      call-Kept (done env meta) (store_file env s.raft b) s
        (same-SameValues _ _ (store-same path b s.world s.raft.state_machine.data'.tx))
  builder_move-Kept (built r) s apart = (refl, (refl, refl))

-- ===== src/Raft/Log/Append.antt =====
-- `append_to_log` against the abstract log.
use replicat.Prelude.{◌⊎◌, ◌≢◌, ◌≡◌, refl, inl, inr, ◌∙◌, ap, arith, List, [], ◌∷◌, ◌++◌}
use replicat.Exec.{Result, ok, err, Result-cases, settled, >>=-ok, >>=-err}
use replicat.Openraft.{Entry, StorageError}
use replicat.Sql.{Bytes, Param, u64, bytes, log_upsert}
use replicat.Sql.Tables.{LogRow, Tables, meaning, put_row}
use replicat.Env.{Env, IsFaithful}
use replicat.Handle.{StorageHandle, World, execute_or}
use replicat.Handle.Effects.{views, execute_or-at}
use replicat.Raft.{System, log_write_error}
use replicat.Raft.Log.{append_entry, append_entries, append_to_log}
use replicat.Raft.Log.Abstract.{put_entry, put_entries, IsRow, Encodes, Encodes-put}
use replicat.Raft.Log.Writes.{log_tables, Refines}

module _ (env : Env) where
  open env use {Membership, entry_codec}

  -- What `append_entries` has done, however it ended: the first entries are in the log, all of
  -- them if it succeeded, and the other table is as it was.
  pub record Appended (before : Tables) (after : Tables) (es log : List (Entry Membership))
      (r : Result StorageError Unit) : Type 0 where
    pub done : List (Entry Membership)
    pub rest : List (Entry Membership)
    pub parts : done ++ rest ≡ es
    pub rows : Encodes env after.logs (put_entries done log)
    pub kv : after.kv ≡ before.kv
    pub complete : (rest ≡ []) ⊎ (r ≢ ok tt)

  module _ (law : IsFaithful env) where
    abbrev row_params : Entry Membership → Bytes → List Param
    row_params entry data' =
        u64 entry.log_id.leader_id.node_id
        ∷ u64 entry.log_id.index
        ∷ u64 entry.log_id.leader_id.term
        ∷ bytes data'
        ∷ []

    abbrev pub row_of : Entry Membership → Bytes → LogRow
    row_of e b = record {
      node_id = e.log_id.leader_id.node_id;
      log_index = e.log_id.index;
      term = e.log_id.leader_id.term;
      entry = b;
    }

    abbrev written : Tables → Entry Membership → Bytes → Tables
    written t e b = record t { logs = put_row (row_of e b) t.logs }

    abbrev insert :
        StorageHandle → Entry Membership → Bytes → World env → Result StorageError Unit × World env
    insert h e b = execute_or env log_write_error h log_upsert (row_params e b)

    insert-at :
        (h : StorageHandle) (e : Entry Membership) (b : Bytes) (w : World env)
        → views (insert h e b w).1 h.tx
          ≡ settled (insert h e b w).0 (written (views w h.tx) e b) (views w h.tx)
    unfolding meaning
    insert-at h e b w =
        execute_or-at env law h log_upsert (row_params e b) w log_write_error _ [] refl

    pub append_entry-ok :
        (h : StorageHandle) (e : Entry Membership) (w : World env)
        → (append_entry env h e w).0 ≡ ok tt
        → (b : Bytes) × (entry_codec.to_vec e ≡ ok b)
          × (views (append_entry env h e w).1 h.tx ≡ written (views w h.tx) e b)
    unfolding append_entry
    append_entry-ok h e w o = elim (Result-cases (entry_codec.to_vec e)) [
      | inr (x, g) ↦ ground arith
      | inl (b, g) ↦ (b, g, ground (arith, insert-at h e b w))
    ]

    pub append_entry-err :
        (h : StorageHandle) (e : Entry Membership) (w : World env) (x : StorageError)
        → (append_entry env h e w).0 ≡ err x
        → views (append_entry env h e w).1 h.tx ≡ views w h.tx
    unfolding append_entry
    append_entry-err h e w x o = elim (Result-cases (entry_codec.to_vec e)) [
      | inr (y, g) ↦ ground arith
      | inl (b, g) ↦ ground (arith, insert-at h e b w)
    ]

    append_entries-Appended :
        (h : StorageHandle) (es : List (Entry Membership)) (w : World env)
        (log : List (Entry Membership))
        → Encodes env (views w h.tx).logs log
        → let (r, w') = append_entries env h es w in
          Appended (views w h.tx) (views w' h.tx) es log r
    unfolding append_entries put_entries
    append_entries-Appended h [] w log a = record {
      done = [];
      rest = [];
      parts = refl;
      rows = a;
      kv = refl;
      complete = inl refl;
    }
    append_entries-Appended h (e ∷ es) w log a = elim (Result-cases (append_entry env h e w).0) [
      | inr (x, o) ↦
          rw (>>=-err (append_entry env h e) (λ _. append_entries env h es) w x o) (record {
            done = [];
            rest = e ∷ es;
            parts = refl;
            rows = rw (append_entry-err h e w x o) a;
            kv = ap (λ t. t.kv) (append_entry-err h e w x o);
            complete = inr (λ p. cc);
          })
      | inl (_, o) ↦
          let (b, g, v) = append_entry-ok h e w o in
          let row : IsRow env (row_of e b) e = record {
            node_id = refl;
            log_index = refl;
            term = refl;
            entry = g;
          } in
          let more =
            append_entries-Appended h es (append_entry env h e w).1 (put_entry e log)
              (rw v (Encodes-put env (row_of e b) e (views w h.tx).logs log row a)) in
          rw (>>=-ok (append_entry env h e) (λ _. append_entries env h es) w tt o) (record {
            done = e ∷ more.done;
            rest = more.rest;
            parts = ap (λ l. e ∷ l) more.parts;
            rows = more.rows;
            kv = more.kv ∙ ap (λ t. t.kv) v;
            complete = more.complete;
          })
    ]

    -- However `append_to_log` ends, the log afterwards is the log before with a first part of the
    -- entries written in their order, the whole of them if it succeeds, and no other value of the
    -- log's database changes.
    pub append_to_log-Appended :
        (es : List (Entry Membership)) (s : System env) (log : List (Entry Membership))
        → Refines s log
        → let (r, s') = append_to_log env es s in
          Appended (log_tables s) (views s'.world s.raft.log.tx) es log r
    unfolding append_to_log
    append_to_log-Appended es s log a = append_entries-Appended s.raft.log es s.world log a

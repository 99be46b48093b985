-- ===== src/Raft/Log/History.antt =====
-- The calls that write the log, one after the other, against the abstract log.
use replicat.Prelude.{
  ◌≡◌, ◌≢◌, refl, inl, inr, ◌⊎◌, ◌∙◌, ap, Option, some, List, [], ◌∷◌, ◌++◌, ltb, select,
}
use replicat.Exec.{Result, ok, err, settled, Result-cases}
use replicat.Openraft.{LogId, LogState, Entry, StorageError}
use replicat.Sql.{u64, delete_logs_since}
use replicat.Sql.Tables.{meaning, is_before}
use replicat.Env.{Env, IsFaithful}
use replicat.Handle.Effects.{execute_or-at}
use replicat.Kv.Effects.{Keeps}
use replicat.Raft.{System, Storage, log_write_error, last_purged_id_key}
use replicat.Raft.Log.{
  append_to_log, delete_conflict_logs_since, purge_logs_upto, get_log_state, or_else,
}
use replicat.Raft.Log.Abstract.{put_entries, where_index, last_id}
use replicat.Raft.Log.Append.{append_to_log-Appended}
use replicat.Raft.Log.Delete.{delete_conflict_logs_since-Refines, purge_logs_upto-Purged}
use replicat.Raft.Log.State.{get_log_state_lem}
use replicat.Raft.Log.Writes.{log_tables, Refines}

-- What openraft is promised: the entries, and the id up to which they were purged.
pub record AbstractLog (M : Type 0) : Type 0 where
  pub entries : List (Entry M)
  pub purged : Option LogId

pub data Write (M : Type 0) : Type 0 where
  appends : List (Entry M) → Write M
  deletes : LogId → Write M
  purges : LogId → Write M

abbrev pub Outcome : Type 0
Outcome = Result StorageError Unit

-- What a call may do to the abstract log, by its result: a call that fails may have written a first
-- part of the entries, or the purged id only.
abbrev pub Effect : {M : Type 0} → Write M → Outcome → AbstractLog M → AbstractLog M → Type 0
Effect {M} (appends es) r log log' =
    (done : List (Entry M)) × (rest : List (Entry M)) × (done ++ rest ≡ es)
    × ((rest ≡ []) ⊎ (r ≢ ok tt))
    × (log' ≡ record log { entries = put_entries done log.entries })
Effect (deletes id) r log log' =
    log'
    ≡ record log { entries = settled r (where_index (λ i. ltb i id.index) log.entries) log.entries }
Effect (purges id) r log log' =
    (log'.entries ≡ settled r (where_index (λ i. ltb id.index i) log.entries) log.entries)
    × ((log'.purged ≡ some id) ⊎ ((log'.purged ≡ log.purged) × (r ≢ ok tt)))

-- The effects of calls, one after the other.
abbrev pub Effects :
    {M : Type 0} → List (Write M × Outcome) → AbstractLog M → AbstractLog M → Type 0
Effects [] log log' = log' ≡ log
Effects {M} ((w, r) ∷ done) log log' =
    (next : AbstractLog M) × Effect w r log next × Effects done next log'

module _ (env : Env) where
  open env use {Membership, log_id_codec}

  abbrev pub write : Write Membership → Storage env Unit
  write (appends es) = append_to_log env es
  write (deletes id) = delete_conflict_logs_since env id
  write (purges id) = purge_logs_upto env id

  -- all calls are made, also after one that failed; each is kept with its result
  abbrev pub write_all :
      List (Write Membership) → System env → List (Write Membership × Outcome) × System env
  write_all [] s = ([], s)
  write_all (w ∷ writes) s =
      let (r, s1) = write w s in let (done, s2) = write_all writes s1 in ((w, r) ∷ done, s2)

  -- What `get_log_state` returns is read off the abstract log, or it fails.
  abbrev pub Shows : Result StorageError LogState → AbstractLog Membership → Type 0
  Shows (ok st) log =
      (st.last_purged_log_id ≡ log.purged)
      × (st.last_log_id ≡ or_else env (last_id log.entries) log.purged)
  Shows (err _) log = Unit

  -- The log's database holds the abstract log.
  abbrev pub Holds : System env → AbstractLog Membership → Type 0
  Holds s log =
      Refines s log.entries × Keeps log_id_codec ((log_tables s).kv last_purged_id_key) log.purged

module _ (env : Env) (law : IsFaithful env) where
  open env use {Membership, log_id_codec}

  -- a call on the log's handle keeps the handles
  abbrev Step : Write Membership → System env → AbstractLog Membership → Type 0
  Step w s log =
      let (r, s') = write env w s in
      (log' : AbstractLog Membership) × Effect w r log log' × Holds env s' log'

  append-Step :
      (es : List (Entry Membership)) (s : System env) (log : AbstractLog Membership)
      → Holds env s log
      → Step (appends es) s log
  unfolding append_to_log
  append-Step es s log (rows, purged) =
      let done = append_to_log-Appended env law es s log.entries rows in
      (
        record log { entries = put_entries done.done log.entries },
        (done.done, done.rest, done.parts, done.complete, refl),
        (done.rows, rw done.kv purged),
      )

  delete-kv :
      (id : LogId) (s : System env)
      → (log_tables (delete_conflict_logs_since env id s).1).kv ≡ (log_tables s).kv
  unfolding delete_conflict_logs_since meaning
  delete-kv id s =
      ap (λ t. t.kv)
        (execute_or-at env law s.raft.log delete_logs_since (u64 id.index ∷ []) s.world
          log_write_error _ [] refl)
      ∙ same (delete_conflict_logs_since env id s).0
    where
      same :
          (r : Outcome)
          → (settled r
              (record (log_tables s) { logs = select (is_before id.index) (log_tables s).logs })
              (log_tables s)).kv
            ≡ (log_tables s).kv
      same (ok _) = refl
      same (err _) = refl

  delete-Step :
      (id : LogId) (s : System env) (log : AbstractLog Membership)
      → Holds env s log
      → Step (deletes id) s log
  delete-Step id s log (rows, purged) =
      let r = (delete_conflict_logs_since env id s).0 in
      (
        record log {
          entries = settled r (where_index (λ i. ltb i id.index) log.entries) log.entries;
        },
        refl,
        (
          delete_conflict_logs_since-Refines env law id s log.entries rows,
          rw (delete-kv id s) purged,
        ),
      )

  purge-Step :
      (id : LogId) (s : System env) (log : AbstractLog Membership)
      → Holds env s log
      → Step (purges id) s log
  purge-Step id s log (rows, purged) =
      let r = (purge_logs_upto env id s).0 in
      let left = settled r (where_index (λ i. ltb id.index i) log.entries) log.entries in
      let done = purge_logs_upto-Purged env law id s log.entries rows in
      elim done.marked [
        | inl (b, enc, kv) ↦ (
          record { entries = left; purged = some id },
          (refl, inl refl),
          (done.rows, (b, enc, rw kv refl)),
        )
        | inr (kv, failed) ↦ (
          record { entries = left; purged = log.purged },
          (refl, inr (refl, failed)),
          (done.rows, rw kv purged),
        )
      ]

  write-Step :
      (w : Write Membership) (s : System env) (log : AbstractLog Membership)
      → Holds env s log
      → Step w s log
  write-Step (appends es) s log h = append-Step es s log h
  write-Step (deletes id) s log h = delete-Step id s log h
  write-Step (purges id) s log h = purge-Step id s log h

  write_all-Effects :
      (writes : List (Write Membership)) (s : System env) (log : AbstractLog Membership)
      → Holds env s log
      → let (done, s') = write_all env writes s in
        (log' : AbstractLog Membership) × Effects done log log' × Holds env s' log'
  write_all-Effects [] s log h = (log, refl, h)
  write_all-Effects (w ∷ writes) s log h =
      let (next, effect, held) = write-Step w s log h in
      let (log', effects, last) = write_all-Effects writes (write env w s).1 next held in
      (log', (next, effect, effects), last)

  get_log_state-Shows :
      (s : System env) (log : AbstractLog Membership)
      → Holds env s log
      → Shows env (get_log_state env s).0 log
  get_log_state-Shows s log (rows, purged) = elim (Result-cases (get_log_state env s).0) [
    | inr (x, g) ↦ rw g tt
    | inl (st, g) ↦ rw g (get_log_state_lem env law s log.entries log.purged st rows purged g)
  ]

  -- Whatever calls write the log, in whatever order, and whether they succeed or fail: the log's
  -- database holds an abstract log that comes of the calls' effects by their results, and a
  -- `get_log_state` that succeeds then returns the purged id of that log, and the id of its last entry
  -- or else the purged one, if the database held an abstract log at first.
  pub write_all-get_log_state :
      (writes : List (Write Membership)) (s : System env) (log : AbstractLog Membership)
      → Holds env s log
      → let (done, s') = write_all env writes s in
        (log' : AbstractLog Membership) × Effects done log log'
        × Holds env s' log'
        × Shows env (get_log_state env s').0 log'
  write_all-get_log_state writes s log h =
      let (log', effects, (rows, purged)) = write_all-Effects writes s log h in
      (
        log',
        effects,
        (rows, purged),
        get_log_state-Shows (write_all env writes s).1 log' (rows, purged),
      )

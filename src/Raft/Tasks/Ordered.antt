-- ===== src/Raft/Tasks/Ordered.antt =====
-- The snapshot that a task builds while another applies entries: its metadata and its tables.
use replicat.Prelude.{
  ◌≡◌, ◌≢◌, refl, ap, subst, ◌∙◌, arith, Option, none, some, List, [], ◌∷◌, String,
}
use replicat.Exec.{ok, err, Exec, map_err-eq-ok}
use replicat.Openraft.{LogId, Entry, StorageError}
use replicat.Raft.Store.{count_snapshot}
use replicat.Sql.{Bytes}
use replicat.Env.{Env, IsFaithful}
use replicat.Handle.{World, serialize_if}
use replicat.Handle.Effects.{views}
use replicat.Kv.Effects.{Keeps}
use replicat.Raft.{System, on_world, last_log_key}
use replicat.Raft.Machine.Coherent.{data_tables, IsCoherent, AllHarmless}
use replicat.Raft.Snapshots.{Meta, Snapshot, store_snapshot}
use replicat.Raft.Snapshots.Transfer.{serialize_if-image, store_snapshot-bytes}
use replicat.Raft.Tasks.{
  Applier, applies, Builder, starts, read_applied, counts, begins_count, marks, names, dumps,
  stores, built, builds, unbuilt, increment, mark, find_name, dump, store_file, snapshot_meta,
  dumped, done, builder_move, Tasks, Turn, applying, building, move, run,
}
use replicat.Raft.Tasks.Steps.{goes_on-keeps, builder_move-Kept}
use replicat.Raft.Tasks.Applying.{
  NotAfter, NotAfter-refl, NotAfter-trans, Ascending, Stands, Fits-same, Fits-held,
  applier_move-Advances,
}

module _ (env : Env) where
  open env use {Membership, image_tables, log_id_codec}

  -- The tables of a snapshot hold the id that the metadata names, or a later one.
  abbrev pub IsNotBehind : Meta env → Bytes → Type 0
  IsNotBehind meta b =
      (held : Option LogId) × Keeps log_id_codec ((image_tables b).kv last_log_key) held
      × NotAfter meta.last_log_id held

  -- what the task has read, against the id that is in memory now
  abbrev pub Reads : Option LogId → Builder env → Type 0
  Reads now starts = Unit
  Reads now (read_applied last) = NotAfter last now
  Reads now (counts last _) = NotAfter last now
  Reads now (begins_count last _ _) = NotAfter last now
  Reads now (marks meta) = NotAfter meta.last_log_id now
  Reads now (names meta) = NotAfter meta.last_log_id now
  Reads now (dumps meta _) = NotAfter meta.last_log_id now
  Reads now (stores meta b) = IsNotBehind meta b
  Reads now (built (ok snap)) = snap.snapshot ≢ [] → IsNotBehind snap.meta snap.snapshot
  Reads now (built (err _)) = Unit

  Reads-later :
      (now later : Option LogId) (b : Builder env)
      → NotAfter now later
      → Reads now b
      → Reads later b
  Reads-later now later starts h k = tt
  Reads-later now later (read_applied last) h k = NotAfter-trans last now later k h
  Reads-later now later (counts last _) h k = NotAfter-trans last now later k h
  Reads-later now later (begins_count last _ _) h k = NotAfter-trans last now later k h
  Reads-later now later (marks meta) h k = NotAfter-trans meta.last_log_id now later k h
  Reads-later now later (names meta) h k = NotAfter-trans meta.last_log_id now later k h
  Reads-later now later (dumps meta _) h k = NotAfter-trans meta.last_log_id now later k h
  Reads-later now later (stores meta b) h k = k
  Reads-later now later (built (ok snap)) h k = k
  Reads-later now later (built (err _)) h k = tt

  pub record Ordered (t : Tasks env) : Type 0 where
    pub stands : Stands env t.system t.applier
    reads : Reads t.system.raft.state_machine.last_applied_log t.builder

module _ (env : Env) (law : IsFaithful env) where
  open env use {Membership, image_tables}

  builds-Reads :
      {A : Type 0} (now : Option LogId) (next : A → Builder env)
      (call : Exec (World env) StorageError A) (s : System env)
      → ((a : A) → (call s.world).0 ≡ ok a → Reads env now (next a))
      → Reads env now (builds env next call s).0
  builds-Reads now next call s go =
      goes_on-keeps (λ b _. Reads env now b) next (unbuilt env) (on_world call) s go (λ _ _. tt)

  -- the bytes that are serialized now
  dumped-Reads :
      (now : Option LogId) (meta : Meta env) (o : Option Bytes)
      → ((b : Bytes) → o ≡ some b → IsNotBehind env meta b)
      → Reads env now (dumped env meta o)
  dumped-Reads now meta none h = λ full. absurd (full refl)
  dumped-Reads now meta (some b) h = h b refl

  dump-IsNotBehind :
      (meta : Meta env) (name : Option String) (b : Bytes) (a : Applier env) (s : System env)
      → Stands env s a
      → NotAfter meta.last_log_id s.raft.state_machine.last_applied_log
      → (serialize_if env s.raft.state_machine.data' name s.world).0 ≡ ok (some b)
      → IsNotBehind env meta b
  dump-IsNotBehind meta name b a s stands k o =
      let m = s.raft.state_machine in
      let (held, kept, later) = Fits-held env m (data_tables s) a stands.fits in
      let image = serialize_if-image env law m.data' name b s.world o in
      (held, rw image kept, NotAfter-trans meta.last_log_id m.last_applied_log held k later)

  builder_move-Reads :
      (b : Builder env) (a : Applier env) (s : System env)
      → Stands env s a
      → let now = s.raft.state_machine.last_applied_log in
        Reads env now b → Reads env now (builder_move env b s).0
  unfolding builder_move
  builder_move-Reads starts a s stands k = NotAfter-refl s.raft.state_machine.last_applied_log
  builder_move-Reads (read_applied last) a s stands k = k
  builder_move-Reads (counts last m) a s stands k =
      builds-Reads s.raft.state_machine.last_applied_log (begins_count last m)
        (increment env s.raft) s (λ _ _. k)
  builder_move-Reads (begins_count last m index) a s stands k =
      builds-Reads s.raft.state_machine.last_applied_log
        (λ idx. marks (snapshot_meta env last m idx)) (count_snapshot env s.raft.log index) s
        (λ _ _. k)
  builder_move-Reads (marks meta) a s stands k =
      builds-Reads s.raft.state_machine.last_applied_log (λ _. names meta) (mark env s.raft meta) s
        (λ _ _. k)
  builder_move-Reads (names meta) a s stands k =
      builds-Reads s.raft.state_machine.last_applied_log (dumps meta) (find_name env s.raft) s
        (λ _ _. k)
  builder_move-Reads (dumps meta name) a s stands k =
      let now = s.raft.state_machine.last_applied_log in
      builds-Reads now (dumped env meta) (dump env s.raft name) s λ o e.
        dumped-Reads now meta o λ b some_b. dump-IsNotBehind meta name b a s stands k (
          map_err-eq-ok _ (serialize_if env s.raft.state_machine.data' name s.world).0 (some b)
            (e ∙ ap ok some_b))
  builder_move-Reads (stores meta b) a s stands k =
      builds-Reads s.raft.state_machine.last_applied_log (done env meta) (store_file env s.raft b) s
        λ got e full.
          let written =
            store_snapshot-bytes env law s.raft.snapshot_path (some b) got s.world
              (map_err-eq-ok _ (store_snapshot env s.raft.snapshot_path (some b) s.world).0 got e)
              full in
          let same : b ≡ got = ground (arith, written) in subst (IsNotBehind env meta) same k
  builder_move-Reads (built r) a s stands k = k

  move-Ordered : (turn : Turn) (t : Tasks env) → Ordered env t → Ordered env (move env turn t)
  unfolding move
  move-Ordered applying t o =
      let (stands, later) = applier_move-Advances env law t.applier t.system o.stands in
      record { stands = stands; reads = Reads-later env _ _ t.builder later o.reads }
  move-Ordered building t o =
      let s' = (builder_move env t.builder t.system).1 in
      let (raft, same) = builder_move-Kept env law t.builder t.system o.stands.apart in
      let m = t.system.raft.state_machine in
      let read = builder_move-Reads t.builder t.applier t.system o.stands o.reads in
      record {
        stands = record {
          apart = rw raft o.stands.apart;
          fits = rw raft (
              Fits-same env m (data_tables t.system) (views s'.world m.data'.tx) t.applier same
                o.stands.fits);
        };
        reads = rw raft read;
      }

  pub run-Ordered :
      (turns : List Turn) (t : Tasks env) → Ordered env t → Ordered env (run env turns t)
  unfolding run
  run-Ordered [] t o = o
  run-Ordered (turn ∷ turns) t o = run-Ordered turns (move env turn t) (move-Ordered turn t o)

  -- a store whose tasks are about to begin
  abbrev pub begun : System env → List (Entry Membership) → Tasks env
  begun s es = record { system = s; applier = applies es []; builder = starts }

  module _ (turns : List Turn) (s : System env) (es : List (Entry Membership))
      (apart : s.raft.state_machine.data'.tx ≢ s.raft.log.tx) (k : IsCoherent s)
      (asc : Ascending s.raft.state_machine.last_applied_log es) (safe : AllHarmless env es) where
    pub begun-Ordered : Ordered env (begun s es)
    begun-Ordered = record { stands = record { apart = apart; fits = (k, asc, safe) }; reads = tt }

    -- While one task applies entries in the order of their ids, another builds a snapshot. Whatever
    -- the interleaving of their steps, and whichever calls fail, a snapshot of a database with tables
    -- holds in its tables the last applied id that its metadata names, or a later one, if memory and
    -- database agreed at first, the database is not the log's, and no client's statement writes the two
    -- values of the state machine.
    pub snapshot-IsNotBehind :
        (snap : Snapshot env)
        → (run env turns (begun s es)).builder ≡ built (ok snap)
        → snap.snapshot ≢ []
        → IsNotBehind env snap.meta snap.snapshot
    snapshot-IsNotBehind snap e full =
        let t = run env turns (begun s es) in
        let reads = (run-Ordered turns (begun s es) begun-Ordered).reads in
        subst (Reads env t.system.raft.state_machine.last_applied_log) e reads full

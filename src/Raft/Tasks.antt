-- ===== src/Raft/Tasks.antt =====
-- `build_snapshot` and `apply_to_state_machine` of src/storage/raft.rs as two tasks: openraft builds a
-- snapshot with a clone of the store, beside the task that applies entries. A step of a task is one
-- call on a handle or one use of a lock; the file of the snapshot is used by no other task.
pub mod Steps
pub mod Applying
pub mod Ordered
pub mod Stopped
pub mod Alone
pub mod Payloads
pub mod Unexecuted
use replicat.Prelude.{ℕ, String, Option, none, some, List, [], ◌∷◌, ◌++◌}
use replicat.Prelude.Int.{ℤ}
use replicat.Exec.{Result, ok, err, Exec, with_err, map_err}
use replicat.Openraft.{
  LogId, Response, EntryPayload, blank, normal, membership, Entry, StorageError,
}
use replicat.Sql.{Bytes, key, kv_increment, select_schema}
use replicat.Env.{Env}
use replicat.Handle.{StorageHandle, World, fetch_one, from_row_i64, from_row_string, serialize_if}
use replicat.Kv.{kv_put}
use replicat.Raft.{
  System, RaftStore, Storage, on_world, last_log_key, last_membership_key, snapshot_index_key,
  store_read_error, store_write_error, create_snapshot_err,
}
use replicat.Raft.Store.{count_snapshot}
use replicat.Raft.Machine.{in_machine, execute_request}
use replicat.Raft.Snapshots.{Meta, Snapshot, snapshot_id_of, write_snapshot_meta, store_snapshot}

-- whose step is next
pub data Turn : Type 0 where
  applying building : Turn

module _ (env : Env) where
  open env use {Membership, EffectiveMembership, log_id_codec, membership_codec, effective_new}

  -- Where `apply_to_state_machine` stands, with the entries and the responses: before it stores the id
  -- of the next entry, before it writes that id to memory, before the entry's payload, before it
  -- writes a membership to memory, and at the end.
  pub data Applier : Type 0 where
    applies : List (Entry Membership) → List Response → Applier
    stored : Entry Membership → List (Entry Membership) → List Response → Applier
    executes : Entry Membership → List (Entry Membership) → List Response → Applier
    stored_membership : EffectiveMembership → List (Entry Membership) → List Response → Applier
    applied : Result StorageError (List Response) → Applier

  -- Where `build_snapshot` stands: before it reads the last applied id, before it reads the
  -- membership, before it counts the snapshot, before it begins to count, before it writes the
  -- metadata, before it looks for a table, before it serializes the database, before it writes the
  -- file, and at the end.
  pub data Builder : Type 0 where
    starts : Builder
    read_applied : Option LogId → Builder
    counts : Option LogId → EffectiveMembership → Builder
    begins_count : Option LogId → EffectiveMembership → Option ℤ → Builder
    marks : Meta env → Builder
    names : Meta env → Builder
    dumps : Meta env → Option String → Builder
    stores : Meta env → Bytes → Builder
    built : Result StorageError (Snapshot env) → Builder

  pub record Tasks : Type 0 where
    pub system : System env
    pub applier : Applier
    pub builder : Builder

  -- a call that succeeds goes on, and one that fails ends the task
  abbrev pub goes_on :
      {E A T : Type 0} → (A → T) → (E → T) → Exec (System env) E A → System env → T × System env
  goes_on next fails call s =
      let (r, s') = call s in elim r [ ok a ↦ (next a, s') | err x ↦ (fails x, s') ]

  abbrev pub failed : StorageError → Applier
  failed x = applied (err x)

  -- the two statements of the setters of `StateMachine`
  abbrev pub put_last_applied : LogId → Storage env Unit
  put_last_applied id s =
      on_world
        (kv_put env log_id_codec store_write_error s.raft.state_machine.data' last_log_key id) s

  abbrev pub put_membership : EffectiveMembership → Storage env Unit
  put_membership effective s =
      on_world
        (kv_put env membership_codec store_write_error s.raft.state_machine.data'
          last_membership_key effective)
        s

  abbrev pub responded : List Response → List Response
  responded res = res ++ (record {} ∷ [])

  unfoldable pub execute_payload :
      LogId
      → EntryPayload Membership
      → List (Entry Membership)
      → List Response
      → System env
      → Applier × System env
  execute_payload id blank es res s = (applies es (responded res), s)
  execute_payload id (normal req) es res s =
      goes_on (λ _. applies es (responded res)) failed (execute_request env req) s
  execute_payload id (membership mem) es res s =
      let effective = effective_new (some id) mem in
      goes_on (λ _. stored_membership effective es res) failed (put_membership effective) s

  unfoldable pub applier_move : Applier → System env → Applier × System env
  unfolding execute_payload
  applier_move (applies [] res) s = (applied (ok res), s)
  applier_move (applies (e ∷ es) res) s =
      goes_on (λ _. stored e es res) failed (put_last_applied e.log_id) s
  applier_move (stored e es res) s =
      (executes e es res, in_machine env (λ m. record m { last_applied_log = some e.log_id }) s)
  applier_move (executes e es res) s = execute_payload e.log_id e.payload es res s
  applier_move (stored_membership effective es res) s =
      (applies es (responded res), in_machine env (λ m. record m { last_membership = effective }) s)
  applier_move (applied r) s = (applied r, s)

  abbrev pub unbuilt : StorageError → Builder
  unbuilt x = built (err x)

  abbrev pub snapshot_meta : Option LogId → EffectiveMembership → ℕ → Meta env
  snapshot_meta last last_membership idx = record {
    last_log_id = last;
    last_membership = last_membership;
    snapshot_id = snapshot_id_of env last idx;
  }

  abbrev pub done : Meta env → Bytes → Builder
  done meta data' = built (ok (record { meta = meta; snapshot = data' }))

  abbrev pub dumped : Meta env → Option Bytes → Builder
  dumped meta none = done meta []
  dumped meta (some data') = stores meta data'

  -- The calls of the task. `build_snapshot` maps the errors of `create_snapshot`.
  abbrev Called : Type 0 → Type 0
  Called A = Exec (World env) StorageError A

  abbrev pub in_snapshot : {E A : Type 0} → Exec (World env) E A → Called A
  in_snapshot call = with_err (λ _. create_snapshot_err) call

  abbrev pub increment : RaftStore env → Called (Option ℤ)
  increment raft =
      with_err (λ _. store_read_error)
        (fetch_one env raft.log (from_row_i64 env) kv_increment (key snapshot_index_key ∷ []))

  abbrev pub mark : RaftStore env → Meta env → Called Unit
  mark raft meta = in_snapshot (write_snapshot_meta env raft.state_machine.data' meta)

  abbrev pub find_name : RaftStore env → Called (Option String)
  find_name raft =
      in_snapshot (fetch_one env raft.state_machine.data' (from_row_string env) select_schema [])

  abbrev pub dump : RaftStore env → Option String → Called (Option Bytes)
  dump raft name = in_snapshot (serialize_if env raft.state_machine.data' name)

  abbrev pub store_file : RaftStore env → Bytes → Called Bytes
  store_file raft data' = in_snapshot (store_snapshot env raft.snapshot_path (some data'))

  abbrev pub builds : {A : Type 0} → (A → Builder) → Called A → System env → Builder × System env
  builds next call s = goes_on next unbuilt (on_world call) s

  unfoldable pub builder_move : Builder → System env → Builder × System env
  unfolding snapshot_id_of
  builder_move starts s = (read_applied s.raft.state_machine.last_applied_log, s)
  builder_move (read_applied last) s = (counts last s.raft.state_machine.last_membership, s)
  builder_move (counts last last_membership) s =
      builds (begins_count last last_membership) (increment s.raft) s
  builder_move (begins_count last last_membership index) s =
      builds (λ idx. marks (snapshot_meta last last_membership idx))
        (count_snapshot env s.raft.log index) s
  builder_move (marks meta) s = builds (λ _. names meta) (mark s.raft meta) s
  builder_move (names meta) s = builds (dumps meta) (find_name s.raft) s
  builder_move (dumps meta name) s = builds (dumped meta) (dump s.raft name) s
  builder_move (stores meta data') s = builds (done meta) (store_file s.raft data') s
  builder_move (built r) s = (built r, s)

  unfoldable pub move : Turn → Tasks → Tasks
  unfolding applier_move builder_move
  move applying t =
      let (applier, system) = applier_move t.applier t.system in
      record t { system = system; applier = applier }
  move building t =
      let (builder, system) = builder_move t.builder t.system in
      record t { system = system; builder = builder }

  unfoldable pub run : List Turn → Tasks → Tasks
  unfolding move
  run [] t = t
  run (turn ∷ turns) t = run turns (move turn t)

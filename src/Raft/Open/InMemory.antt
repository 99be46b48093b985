-- ===== src/Raft/Open/InMemory.antt =====
-- `RaftStore::open_with_mem_state` of src/storage/raft.rs, on a log that was used before.
use replicat.Prelude.{◌≡◌, refl, inl, arith, ap, Option, none, some, List}
use replicat.Exec.{ok, with_err, >>=-eq-ok, map_err-eq-ok}
use replicat.Openraft.{LogId, LogState, Entry}
use replicat.Sql.Tables.{no_tables}
use replicat.Env.{Env, IsFaithful, FilePath}
use replicat.Handle.{World}
use replicat.Kv.Effects.{Keeps, kv_get-empty}
use replicat.Raft.{
  System, RaftStore, StateMachine, last_log_key, last_membership_key, last_purged_id_key,
  snapshot_meta_key, create_snapshot_err,
}
use replicat.Raft.Log.{get_log_state, or_else}
use replicat.Raft.Log.Abstract.{Encodes, last_id}
use replicat.Raft.Log.State.{get_log_state_lem}
use replicat.Raft.Machine.{last_applied_state}
use replicat.Raft.Machine.Coherent.{data_tables}
use replicat.Raft.Open.{join, open_with_mem_state}
use replicat.Raft.Open.Reopened.{open_store-IsOn}
use replicat.Raft.Snapshots.{Snapshot, get_snapshot_meta, get_current_snapshot, with_file}

module _ (env : Env) (law : IsFaithful env) where
  open env use {Membership, EffectiveMembership, effective_default, log_id_codec, meta_codec}

  -- without its metadata, a snapshot's file is not read
  get_current_snapshot-none :
      (s : System env) (snap : Option (Snapshot env))
      → (data_tables s).kv snapshot_meta_key ≡ none
      → (get_current_snapshot env s).0 ≡ ok snap
      → snap ≡ none
  unfolding get_current_snapshot get_snapshot_meta
  get_current_snapshot-none s snap missing e =
      let h = s.raft.state_machine.data' in
      let read = with_err (λ _. create_snapshot_err) (get_snapshot_meta env h) in
      let (meta, o, e1, _) = >>=-eq-ok read (with_file env s.raft.snapshot_path) s.world snap e in
      let empty =
        kv_get-empty env law meta_codec tt h snapshot_meta_key s.world meta missing
          (map_err-eq-ok _ (get_snapshot_meta env h s.world).0 meta o) in
      ground (arith, empty, e1)

  -- A store that is opened with its state in memory, where SQLite opens ":memory:" without tables,
  -- has applied nothing, has the default membership and returns no snapshot; `get_log_state` returns
  -- the purged id that log.db holds, and the id of the last entry there or else the purged one.
  pub open_with_mem_state-forgets :
      (base : FilePath) (w : World env) (raft : RaftStore env) (log : List (Entry Membership))
      (purged : Option LogId)
      → ((c : env.Conn) → env.open_conn ":memory:" ≡ ok c → env.tables c ≡ no_tables)
      → ((c : env.Conn)
          → env.open_conn (join base "log.db") ≡ ok c
          → Encodes env (env.tables c).logs log
            × Keeps log_id_codec ((env.tables c).kv last_purged_id_key) purged)
      → (open_with_mem_state env base w).0 ≡ ok raft
      → let s : System env = record { raft = raft; world = (open_with_mem_state env base w).1 } in
        ((last_applied_state env s).0 ≡ ok (none, effective_default))
        × ((snap : Option (Snapshot env)) → (get_current_snapshot env s).0 ≡ ok snap → snap ≡ none)
        × ((st : LogState)
            → (get_log_state env s).0 ≡ ok st
            → (st.last_purged_log_id ≡ purged)
              × (st.last_log_id ≡ or_else env (last_id log) purged))
  unfolding open_with_mem_state last_applied_state
  open_with_mem_state-forgets base w raft log purged fresh held e =
      let (c, c', conn, conn', on) = open_store-IsOn env law base (some ":memory:") w raft e in
      let empty = fresh c' conn' in
      let (rows, kept) = held c conn in
      let nothing : StateMachine env = record {
        last_applied_log = none;
        last_membership = effective_default;
        data' = raft.log;
      } in
      let (applied, effective) = on.values nothing (record {
        applied = ap (λ t. t.kv last_log_key) empty;
        effective = inl (ap (λ t. t.kv last_membership_key) empty, refl);
      }) in
      (
        ground (arith, applied, effective),
        λ snap. get_current_snapshot-none _ snap (rw (on.data_same, empty) refl),
        λ st. get_log_state_lem env law _ log purged st (rw on.log_same rows) (rw on.log_same kept),
      )

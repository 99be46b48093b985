-- ===== src/Raft/Open/Handles.antt =====
-- The two handles of a store that `RaftStore::open` returns.
use replicat.Prelude.{◌+◌, ◌≡◌, ◌≢◌, sym, ap, ◌∙◌, arith, Option, none, some}
use replicat.Exec.{ok, Exec, pure, with_err, ◌>>=◌, ◌>>◌, >>=-eq-ok, map_err-eq-ok}
use replicat.Env.{Env, FilePath}
use replicat.Handle.{World, StorageHandle, open_handle}
use replicat.Raft.{StateMachine, RaftStore}
use replicat.Raft.Open.{create_state_machine, setup_log_store, join, open_data, open_store}

-- Where a store was opened with no state store, the live data are on the log's thread; with one,
-- they are on a thread of their own.
abbrev pub Placed : {env : Env} → Option FilePath → RaftStore env → Type 0
Placed none raft = raft.state_machine.data' ≡ raft.log
Placed (some _) raft = raft.state_machine.data'.tx ≢ raft.log.tx

module _ (env : Env) where
  open env use {EffectiveMembership, log_id_codec, membership_codec}

  open_handle-tx :
      (path : FilePath) (h : StorageHandle) (w : World env)
      → (open_handle env path w).0 ≡ ok h
      → (h.tx ≡ w.spawned) × ((open_handle env path w).1.spawned ≡ w.spawned + 1)
  unfolding open_handle
  open_handle-tx path h w e = (ground arith, ground arith)

  create_state_machine-data :
      (h : StorageHandle) (w : World env) (m : StateMachine env)
      → (create_state_machine env h w).0 ≡ ok m
      → m.data' ≡ h
  unfolding create_state_machine
  create_state_machine-data h w m e = ground arith

  -- the calls of `open_store`
  abbrev pub opened : FilePath → Exec (World env) Unit StorageHandle
  opened path = with_err (λ _. tt) (open_handle env path)

  abbrev pub with_machine :
      FilePath → StorageHandle → StateMachine env → Exec (World env) Unit (RaftStore env)
  with_machine base log m =
      pure (record { log = log; state_machine = m; snapshot_path = join base "snapshot.db" })

  abbrev pub set_up :
      FilePath → StorageHandle → StorageHandle → Exec (World env) Unit (RaftStore env)
  set_up base log data' =
      with_err (λ _. tt) (setup_log_store env log)
      >> (create_state_machine env data' >>= with_machine base log)

  abbrev pub with_log :
      FilePath → Option FilePath → StorageHandle → Exec (World env) Unit (RaftStore env)
  with_log base state_store log =
      with_err (λ _. tt) (open_data env log state_store) >>= set_up base log

  pub set_up-handles :
      (base : FilePath) (log data' : StorageHandle) (w : World env) (raft : RaftStore env)
      → (set_up base log data' w).0 ≡ ok raft
      → (raft.log ≡ log) × (raft.state_machine.data' ≡ data')
  set_up-handles base log data' w raft e =
      let setup = with_err (λ _. tt) (setup_log_store env log) in
      let (_, _, e1, _) =
        >>=-eq-ok setup (λ _. create_state_machine env data' >>= with_machine base log) w raft e in
      let w1 = (setup w).1 in
      let (m, o, e2, _) =
        >>=-eq-ok (create_state_machine env data') (with_machine base log) w1 raft e1 in
      let same = create_state_machine-data data' w1 m o in
      (ground (arith, e2), ground (arith, e2, same))

  -- A store that was opened has its live data on the log's thread if it was given no state store, and
  -- on another thread if it was given one.
  pub open_store-Placed :
      (base : FilePath) (state_store : Option FilePath) (w : World env) (raft : RaftStore env)
      → (open_store env base state_store w).0 ≡ ok raft
      → Placed state_store raft
  unfolding open_store open_data
  open_store-Placed base none w raft e =
      let (log, _, e1, _) = >>=-eq-ok (opened (join base "log.db")) (with_log base none) w raft e in
      let w1 = (opened (join base "log.db") w).1 in
      let (log_same, data_same) = set_up-handles base log log w1 raft e1 in data_same ∙ sym log_same
  open_store-Placed base (some path) w raft e =
      let (log, o, e1, _) =
        >>=-eq-ok (opened (join base "log.db")) (with_log base (some path)) w raft e in
      let w1 = (opened (join base "log.db") w).1 in
      let (first, next) =
        open_handle-tx (join base "log.db") log w
          (map_err-eq-ok _ (open_handle env (join base "log.db") w).0 log o) in
      let (data', p, e2, _) = >>=-eq-ok (opened path) (set_up base log) w1 raft e1 in
      let (second, _) =
        open_handle-tx path data' w1 (map_err-eq-ok _ (open_handle env path w1).0 data' p) in
      let (log_same, data_same) = set_up-handles base log data' (opened path w1).1 raft e2 in
      λ equal. omega (
        arith,
        ap (λ (h : StorageHandle). h.tx) log_same,
        ap (λ (h : StorageHandle). h.tx) data_same,
        equal,
        first,
        next,
        second,
      )

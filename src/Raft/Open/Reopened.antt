-- ===== src/Raft/Open/Reopened.antt =====
-- The store that `RaftStore::open` of src/storage/raft.rs returns, and the files it was opened on.
use replicat.Prelude.{ℕ, ◌+◌, ◌≡◌, ◌≢◌, sym, ap, subst, arith, ◌∙◌, Option, none, some, List}
use replicat.Exec.{ok, with_err, ◌>>=◌, >>=-keeps, >>=-eq-ok, map_err-eq-ok}
use replicat.Openraft.{Entry}
use replicat.Env.{Env, IsFaithful, FilePath}
use replicat.Handle.{World, StorageHandle, open_handle}
use replicat.Handle.Effects.{views}
use replicat.Kv.Effects.{Keeps}
use replicat.Raft.{System, StateMachine, RaftStore, last_log_key, last_membership_key}
use replicat.Raft.Log.Abstract.{Encodes}
use replicat.Raft.Log.Writes.{log_tables, Refines}
use replicat.Raft.Machine.Coherent.{KeepsMembership, Matches, IsCoherent, data_tables}
use replicat.Raft.Machine.Restart.{create_state_machine-Matches}
use replicat.Raft.Open.{create_state_machine, setup_log_store, join, open_data, open_store}
use replicat.Raft.Open.Handles.{
  opened, with_machine, set_up, with_log, set_up-handles, Placed, open_store-Placed,
}
use replicat.Raft.Open.Tables.{
  create_state_machine-views, setup_log_store-views, open_handle-tables,
}

-- the file of the live data
abbrev pub state_file : FilePath → Option FilePath → FilePath
state_file base none = join base "log.db"
state_file base (some path) = path

-- A store whose handles show the tables of two connections, with the values that the second one's
-- tables hold.
pub record IsOn {env : Env} (c_log c_data : env.Conn) (s : System env) : Type 0 where
  pub log_same : log_tables s ≡ env.tables c_log
  pub data_same : data_tables s ≡ env.tables c_data
  pub values :
      (m : StateMachine env)
      → Matches m (env.tables c_data)
      → (s.raft.state_machine.last_applied_log ≡ m.last_applied_log)
        × (s.raft.state_machine.last_membership ≡ m.last_membership)

-- the values of a state machine are those in the tables that its thread shows
pub IsOn-IsCoherent :
    {env : Env} (c c' : env.Conn) (s : System env) (m : StateMachine env)
    → IsOn c c' s
    → Matches m (env.tables c')
    → IsCoherent s
IsOn-IsCoherent {env} c c' s m on held =
    let (applied, effective) = on.values m held in
    let shown = subst (Matches m) (sym on.data_same) held in
    record {
      applied =
          subst (Keeps env.log_id_codec ((data_tables s).kv last_log_key)) (sym applied)
            shown.applied;
      effective =
          subst (KeepsMembership env ((data_tables s).kv last_membership_key)) (sym effective)
            shown.effective;
    }

module _ (env : Env) (law : IsFaithful env) where
  open env use {Membership, log_id_codec, membership_codec}

  set_up-views :
      (base : FilePath) (log data' : StorageHandle) (w : World env)
      → views (set_up env base log data' w).1 ≡ views w
  set_up-views base log data' w =
      let setup = with_err (λ _. tt) (setup_log_store env log) in
      let w1 = (setup w).1 in
      let v = create_state_machine-views env law data' w1 ∙ setup_log_store-views env law log w in
      >>=-keeps (λ w'. views w' ≡ views w) setup
        (λ _. create_state_machine env data' >>= with_machine env base log) w
        (setup_log_store-views env law log w)
        λ _ _.
          >>=-keeps (λ w'. views w' ≡ views w) (create_state_machine env data')
            (with_machine env base log) w1 v λ _ _. v

  abbrev pub system : RaftStore env → World env → System env
  system raft w = record { raft = raft; world = w }

  -- `open_store` after its handles are opened
  set_up-IsOn :
      (base : FilePath) (log data' : StorageHandle) (c c' : env.Conn) (w : World env)
      (raft : RaftStore env)
      → views w log.tx ≡ env.tables c
      → views w data'.tx ≡ env.tables c'
      → (set_up env base log data' w).0 ≡ ok raft
      → IsOn c c' (system raft (set_up env base log data' w).1)
  set_up-IsOn base log data' c c' w raft l d e =
      let setup = with_err (λ _. tt) (setup_log_store env log) in
      let (_, _, e1, _) =
        >>=-eq-ok setup (λ _. create_state_machine env data' >>= with_machine env base log) w raft
          e in
      let w1 = (setup w).1 in
      let (m, o, e2, _) =
        >>=-eq-ok (create_state_machine env data') (with_machine env base log) w1 raft e1 in
      let (log_is, data_is) = set_up-handles env base log data' w raft e in
      let v = set_up-views base log data' w in
      let machine_is : m ≡ raft.state_machine = ground (arith, e2) in
      record {
        log_same = rw log_is (ap (λ f. f log.tx) v ∙ l);
        data_same = rw data_is (ap (λ f. f data'.tx) v ∙ d);
        values = λ m' held.
            let (applied, effective, _) =
              create_state_machine-Matches env law data' w1 m' m
                (subst (Matches m')
                  (sym (ap (λ f. f data'.tx) (setup_log_store-views env law log w) ∙ d)) held)
                o in
            ground (arith, applied, effective, machine_is);
      }

  opened-tables :
      (path : FilePath) (h : StorageHandle) (w : World env)
      → (opened env path w).0 ≡ ok h
      → let w' = (opened env path w).1 in
        (c : env.Conn) × (env.open_conn path ≡ ok c)
        × (h.tx ≡ w.spawned)
        × (w'.spawned ≡ w.spawned + 1)
        × (views w' h.tx ≡ env.tables c)
        × ((i : ℕ) → i ≢ w.spawned → views w' i ≡ views w i)
  opened-tables path h w e =
      open_handle-tables env path h w (map_err-eq-ok _ (open_handle env path w).0 h e)

  -- the connections that `open_store` opens are those that its handles show
  pub open_store-IsOn :
      (base : FilePath) (state_store : Option FilePath) (w : World env) (raft : RaftStore env)
      → (open_store env base state_store w).0 ≡ ok raft
      → (c : env.Conn) × (c' : env.Conn) × (env.open_conn (join base "log.db") ≡ ok c)
        × (env.open_conn (state_file base state_store) ≡ ok c')
        × IsOn c c' (system raft (open_store env base state_store w).1)
  unfolding open_store open_data
  open_store-IsOn base none w raft e =
      let (log, o, e1, s1) =
        >>=-eq-ok (opened env (join base "log.db")) (with_log env base none) w raft e in
      let w1 = (opened env (join base "log.db") w).1 in
      let (c, conn, _, _, v, _) = opened-tables (join base "log.db") log w o in
      (
        c,
        c,
        conn,
        conn,
        subst (λ w'. IsOn c c (system raft w')) (sym (ap (λ x. x.1) s1))
            (set_up-IsOn base log log c c w1 raft v v e1),
      )
  open_store-IsOn base (some path) w raft e =
      let (log, o, e1, s1) =
        >>=-eq-ok (opened env (join base "log.db")) (with_log env base (some path)) w raft e in
      let w1 = (opened env (join base "log.db") w).1 in
      let (c, conn, at, next, v, _) = opened-tables (join base "log.db") log w o in
      let (data', p, e2, s2) = >>=-eq-ok (opened env path) (set_up env base log) w1 raft e1 in
      let (c', conn', _, _, v', kept) = opened-tables path data' w1 p in
      let apart : log.tx ≢ w1.spawned = λ same. omega (arith, at, next, same) in
      (
        c,
        c',
        conn,
        conn',
        subst (λ w'. IsOn c c' (system raft w')) (sym (ap (λ x. x.1) (s1 ∙ s2)))
            (set_up-IsOn base log data' c c' (opened env path w1).1 raft (kept log.tx apart ∙ v) v'
              e2),
      )

  -- A store that is opened on files, the one of the live data with the values of a state machine and
  -- log.db with a log, has those values, in memory and in the database alike, and that log; its live
  -- data are on the log's thread if it was given no state store, and on another one if it was given
  -- one.
  pub open_store-reopens :
      (base : FilePath) (state_store : Option FilePath) (w : World env) (raft : RaftStore env)
      (m : StateMachine env) (log : List (Entry Membership))
      → ((c : env.Conn)
          → env.open_conn (join base "log.db") ≡ ok c
          → Encodes env (env.tables c).logs log)
      → ((c : env.Conn)
          → env.open_conn (state_file base state_store) ≡ ok c
          → Matches m (env.tables c))
      → (open_store env base state_store w).0 ≡ ok raft
      → let s : System env = record {
        raft = raft;
        world = (open_store env base state_store w).1;
      } in
        (raft.state_machine.last_applied_log ≡ m.last_applied_log)
        × (raft.state_machine.last_membership ≡ m.last_membership)
        × IsCoherent s
        × Refines s log
        × Placed state_store raft
  open_store-reopens base state_store w raft m log l d e =
      let (c, c', conn, conn', on) = open_store-IsOn base state_store w raft e in
      let (applied, effective) = on.values m (d c' conn') in
      (
        applied,
        effective,
        IsOn-IsCoherent c c' (system raft (open_store env base state_store w).1) m on (d c' conn'),
        rw on.log_same (l c conn),
        open_store-Placed env base state_store w raft e,
      )

-- ===== src/Raft/Calls/Lives.antt =====
-- The lives of a store of src/storage/raft.rs: it is opened, called, stopped and opened again.
use replicat.Prelude.{◌≡◌, some}
use replicat.Exec.{ok}
use replicat.Env.{Env, IsFaithful, FilePath}
use replicat.Handle.{World}
use replicat.Raft.{System, RaftStore, StateMachine}
use replicat.Raft.Machine.Coherent.{Matches}
use replicat.Raft.Open.{open_store}
use replicat.Raft.Calls.{Calls}
use replicat.Raft.Calls.Settled.{IsSettled}
use replicat.Raft.Calls.Coherent.{Calls-IsSettled}
use replicat.Raft.Calls.Durable.{
  Files, with_files, Kept, SameStore, with_files-IsFaithful, open_store-IsSettled,
  IsSettled-reopens,
}

module _ (env : Env) (base path : FilePath) where
  -- `RaftStore::open` with a state file of its own, and the store that it returns
  abbrev pub Opens :
      (files : Files env) → World (with_files env files) → RaftStore (with_files env files) → Type 0
  Opens files w raft = (open_store (with_files env files) base (some path) w).0 ≡ ok raft

  abbrev pub opened :
      (files : Files env)
      → World (with_files env files)
      → RaftStore (with_files env files)
      → System (with_files env files)
  opened files w raft = record {
    raft = raft;
    world = (open_store (with_files env files) base (some path) w).1;
  }

  -- A store that was opened for the first time on the values of some state machine, or called since,
  -- or stopped and opened on files that keep its tables, with the files of its last opening.
  pub data Lived : (files : Files env) → System (with_files env files) → Type 0 where
    first :
        (files : Files env) (w : World (with_files env files))
        (raft : RaftStore (with_files env files)) (m : StateMachine (with_files env files))
        → ((c : env.Conn) → files path ≡ ok c → Matches m (env.tables c))
        → Opens files w raft
        → Lived files (opened files w raft)
    called :
        {files : Files env} {s s' : System (with_files env files)}
        → Lived files s
        → Calls (with_files env files) s s'
        → Lived files s'
    again :
        {files : Files env} {s : System (with_files env files)}
        → Lived files s
        → (later : Files env) (w : World (with_files env later))
          (raft : RaftStore (with_files env later))
        → Kept (with_files env files) base path later s
        → Opens later w raft
        → Lived later (opened later w raft)

module _ (env : Env) (law : IsFaithful env) (base path : FilePath) where
  Lived-IsSettled :
      {files : Files env} {s : System (with_files env files)}
      → Lived env base path files s
      → IsSettled s
  Lived-IsSettled (first files w raft m held e) =
      open_store-IsSettled (with_files env files) (with_files-IsFaithful env law files) base path w
        raft m held e
  Lived-IsSettled (called {files} lived calls) =
      Calls-IsSettled (with_files env files) (with_files-IsFaithful env law files) calls
        (Lived-IsSettled lived)
  Lived-IsSettled (again {files} {s} lived later w raft kept e) =
      (IsSettled-reopens (with_files env files) (with_files-IsFaithful env law files) base path s
        later w raft (Lived-IsSettled lived) kept e).1

  -- A store is opened on a state file of its own, is called in whatever order and however the calls
  -- end, but not with `install_snapshot`, is stopped, and is opened again on files that keep the
  -- tables it had, and all this any number of times: when it is opened, it has the last applied id
  -- and the membership that were in memory when it was stopped, and the same tables for the log and
  -- for the live data, if no client's statement writes the two values and the first files held those
  -- of some state machine.
  pub Lived-reopens :
      {files : Files env} {s : System (with_files env files)} (later : Files env)
      (w : World (with_files env later)) (raft : RaftStore (with_files env later))
      → Lived env base path files s
      → Kept (with_files env files) base path later s
      → Opens env base path later w raft
      → SameStore (with_files env files) s (opened env base path later w raft)
  Lived-reopens {files} {s} later w raft lived kept e =
      (IsSettled-reopens (with_files env files) (with_files-IsFaithful env law files) base path s
        later w raft (Lived-IsSettled lived) kept e).0

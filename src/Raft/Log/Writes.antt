-- ===== src/Raft/Log/Writes.antt =====
-- What the writers of the log share: the tables of its database.
use replicat.Prelude.{List}
use replicat.Openraft.{Entry}
use replicat.Sql.Tables.{Tables}
use replicat.Env.{Env}
use replicat.Handle.Effects.{views}
use replicat.Raft.{System}
use replicat.Raft.Log.Abstract.{Encodes}

-- The tables of the database that holds the log.
abbrev pub log_tables : {env : Env} → System env → Tables
log_tables s = views s.world s.raft.log.tx

-- The log's rows hold the abstract log.
abbrev pub Refines : {env : Env} → System env → List (Entry env.Membership) → Type 0
Refines {env} s log = Encodes env (log_tables s).logs log

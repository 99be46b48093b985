-- ===== src/Tests/Data.antt =====
-- The inputs of the tests.
use replicat.Prelude.{ℕ, ◌≡◌, subst, arith, none, List, [], ◌∷◌}
use replicat.Exec.{Result, ok}
use replicat.Sql.{Bytes}
use replicat.Env.{SqlError}
use replicat.Params.{TransportableParam}
use replicat.Openraft.{LogId, blank, normal, membership, Entry, Request}
use replicat.Env.Memory.{memory}
use replicat.Handle.{StorageHandle, World}
use replicat.Raft.{System, RaftStore}

abbrev pub id : ℕ → LogId
id i = record { leader_id = record { term = 1; node_id = 7 }; index = i }

abbrev pub first_entry : Entry ℕ
first_entry = record { log_id = id 1; payload = blank }

abbrev pub second_entry : Entry ℕ
second_entry = record { log_id = id 2; payload = membership 5 }

abbrev pub request_entry : Entry ℕ
request_entry = record {
  log_id = id 3;
  payload = normal (Request.execute "INSERT INTO t VALUES (?)" (TransportableParam.null ∷ []));
}

-- a client's statement that SQLite refuses
abbrev pub refused_entry : Entry ℕ
refused_entry = record { log_id = id 4; payload = normal (Request.execute "bad" []) }

abbrev pub two_entries : List (Entry ℕ)
two_entries = first_entry ∷ second_entry ∷ []

abbrev pub log_handle : StorageHandle
log_handle = record { tx = 0 }

abbrev pub data_handle : StorageHandle
data_handle = record { tx = 1 }

abbrev pub empty_world : World memory
empty_world = record { conns = λ _. []; spawned = 2; disk = λ _. none }

abbrev pub store_on : StorageHandle → RaftStore memory
store_on data' = record {
  log = log_handle;
  state_machine = record { last_applied_log = none; last_membership = (none, 0); data' = data' };
  snapshot_path = "/db/snapshot.db";
}

abbrev pub empty_system : System memory
empty_system = record { world = empty_world; raft = store_on data_handle }

-- opened with no state store
abbrev pub shared_system : System memory
shared_system = record { world = empty_world; raft = store_on log_handle }

-- what holds of the content of a file holds of the connection that is opened on it
pub carried {κ} :
    (P : Bytes → Type κ) (content c : Bytes)
    → ◌≡◌ {A = Result SqlError Bytes} (ok content) (ok c)
    → P content
    → P c
carried P content c e p = subst P (ground arith) p

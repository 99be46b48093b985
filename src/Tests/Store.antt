-- ===== src/Tests/Store.antt =====
-- The vote, the counter of snapshots, and copies of a database.
use replicat.Prelude.{ℕ, ◌+◌, ◌≡◌, refl, arith, true, some, [], ◌∷◌}
use replicat.Openraft.{Vote}
use replicat.Sql.Tables.{meaning}
use replicat.Env.Memory.{memory, memory-IsFaithful}
use replicat.Handle.{execute_or, execute, fetch_one}
use replicat.Handle.Actor.{Actor, Steps, stop, step, sends, runs, send_async, run_task}
use replicat.Kv.{kv_put, kv_get}
use replicat.Raft.{System, snapshot_index_key}
use replicat.Raft.Store.Counter.{Counted, get_and_inc_snapshot_index-Counted}
use replicat.Raft.Store.{save_vote, read_vote}
use replicat.Raft.Store.Votes.{save_vote-read_vote}
use replicat.Raft.Log.Writes.{log_tables}
use replicat.Raft.Store.{get_and_inc_snapshot_index, count_snapshot}
use replicat.Raft.Log.{append_to_log}
use replicat.Tests.Data.{two_entries, empty_system}

abbrev ballot : Vote
ballot = record { term = 3; node_id = 7; committed = true }

abbrev voted : System memory
voted = (save_vote memory ballot empty_system).1

save_vote-read_vote_example : some ballot ≡ some ballot
unfolding save_vote read_vote kv_put kv_get execute_or execute fetch_one meaning append_to_log
save_vote-read_vote_example =
    save_vote-read_vote memory memory-IsFaithful ballot two_entries [] empty_system (some ballot)
      refl tt refl

abbrev counted_once : System memory
counted_once = (get_and_inc_snapshot_index memory empty_system).1

abbrev counted_twice : System memory
counted_twice = (get_and_inc_snapshot_index memory counted_once).1

get_and_inc_snapshot_index-Counted_example :
    (◌≡◌ {A = ℕ} 1 1) × Counted ((log_tables counted_twice).kv snapshot_index_key) 2
unfolding get_and_inc_snapshot_index count_snapshot execute_or execute fetch_one meaning
get_and_inc_snapshot_index-Counted_example =
    get_and_inc_snapshot_index-Counted memory memory-IsFaithful 1 1 counted_once (omega arith) refl
      refl

-- two tasks on a counter, the first one run before the second one is sent
abbrev Counter : Type 0
Counter = Actor ℕ ℕ

abbrev increment : ℕ × (ℕ → ℕ × ℕ)
increment = (0, λ n. (n, n + 1))

abbrev double : ℕ × (ℕ → ℕ × ℕ)
double = (1, λ n. (n, n + n))

abbrev idle : Counter
idle = record { tasks = []; conn = 5; replies = [] }

abbrev after_first : Counter
after_first = record { tasks = []; conn = 6; replies = (0, 5) ∷ [] }

abbrev finished : Counter
finished = record { tasks = []; conn = 12; replies = (0, 5) ∷ (1, 6) ∷ [] }

two_tasks : Steps ℕ ℕ (increment ∷ double ∷ []) idle finished
unfolding send_async run_task
two_tasks = step (sends increment (omega arith)) (
    step (runs increment [] refl)
      (step (sends double (omega arith)) (step (runs double [] refl) stop)))

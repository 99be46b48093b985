-- ===== src/Tests/Actor.antt =====
-- `submit_task` through the channel, on the environment `memory`.
use replicat.Prelude.{ℕ, ◌≡◌, refl, arith, [], ◌∷◌, ◌++◌}
use replicat.Exec.{Result}
use replicat.Sql.{Sql, create_logs_table, create_kv_table}
use replicat.Env.{SqlError}
use replicat.Env.Memory.{memory}
use replicat.Handle.{World, submit_task}
use replicat.Handle.Actor.{
  Task, Actor, Steps, stop, step, sends, runs, send_async, run_task, drained, serve,
}
use replicat.Handle.Actor.Submit.{submit_all, Steps-submit_all, submit_task-answered}
use replicat.Tests.Data.{empty_world, log_handle}

abbrev Reply : Type 0
Reply = Result SqlError ℕ

abbrev Conn : Type 0
Conn = memory.Conn

-- the caller's number and its statement
abbrev executes : ℕ → Sql → Task Conn Reply
executes ticket sql = (ticket, λ conn. memory.run_execute conn sql [])

abbrev first : Task Conn Reply
first = executes 0 create_kv_table

abbrev second : Task Conn Reply
second = executes 1 create_logs_table

abbrev idle : Actor Conn Reply
idle = record { tasks = []; conn = empty_world.conns 0; replies = [] }

-- The second task is sent before the first one is run.
abbrev both_waiting : Actor Conn Reply
unfolding send_async
both_waiting = send_async Conn Reply second (send_async Conn Reply first idle)

abbrev one_waiting : Actor Conn Reply
unfolding send_async run_task
one_waiting = run_task Conn Reply first (second ∷ []) both_waiting

abbrev finished : Actor Conn Reply
unfolding send_async run_task
finished = run_task Conn Reply second [] one_waiting

both_run : Steps Conn Reply (first ∷ second ∷ []) idle finished
unfolding send_async run_task
both_run = step (sends first (omega arith)) (
    step (sends second (omega arith))
      (step (runs first (second ∷ []) refl) (step (runs second [] refl) stop)))

Steps-submit_all_example :
    let (answers, w') = submit_all memory ℕ log_handle (first ∷ second ∷ []) ([], empty_world) in
    (finished.replies ≡ answers) × (finished.conn ≡ w'.conns 0)
unfolding send_async run_task
Steps-submit_all_example = Steps-submit_all memory ℕ log_handle empty_world both_run refl refl refl

-- the world after the two tasks
abbrev later : World memory
unfolding serve
later = record empty_world { conns = λ _. (drained Conn Reply both_waiting).0 }

abbrev third : Task Conn Reply
third = executes 2 create_kv_table

submit_task-answered_example :
    let (res, w') = submit_task memory log_handle third.1 later in
    (b : Actor Conn Reply) × Steps Conn Reply (third ∷ []) both_waiting b
    × (b.tasks ≡ [])
    × (b.conn ≡ w'.conns 0)
    × (b.replies ≡ (drained Conn Reply both_waiting).1 ++ ((2, res) ∷ []))
unfolding later
submit_task-answered_example =
    submit_task-answered memory ℕ log_handle both_waiting 2 third.1 later refl

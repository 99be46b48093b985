-- ===== src/Handle/Actor.antt =====
-- The channel and the thread behind a `StorageHandle` in src/storage/mod.rs: `submit_task` sends a
-- callback and waits for its result, `run_tasks` takes them off the channel one by one. A caller
-- is known by a number, its ticket.
pub mod Submit
use mathlib.Core.List.{append-nil}
use replicat.Prelude.{
  ℕ, ◌≤◌, ◌<◌, ◌≡◌, refl, sym, ap, ◌∙◌, arith, List, [], ◌∷◌, ◌++◌, length, length-append,
}

abbrev pub capacity : ℕ
capacity = 10

module _ (Conn Reply : Type 0) where
  abbrev pub Task : Type 0
  Task = ℕ × (Conn → Reply × Conn)

  -- A bounded channel, the thread's connection, and what was sent back so far.
  pub record Actor : Type 0 where
    pub tasks : List Task
    pub conn : Conn
    pub replies : List (ℕ × Reply)

  -- the sender's half of `submit_task`, where the channel has room
  unfoldable pub send_async : Task → Actor → Actor
  send_async task a = record a { tasks = a.tasks ++ (task ∷ []) }

  -- one round of the loop in `run_tasks`, on the task that was received
  unfoldable pub run_task : Task → List Task → Actor → Actor
  run_task (ticket, inner) rest a =
      let (res, conn) = inner a.conn in
      record { tasks = rest; conn = conn; replies = a.replies ++ ((ticket, res) ∷ []) }

  -- A sender waits while the channel is full, and the thread while it is empty.
  pub data Step : List Task → Actor → Actor → Type 0 where
    sends :
        {a : Actor} (task : Task)
        → length a.tasks < capacity
        → Step (task ∷ []) a (send_async task a)
    runs :
        {a : Actor} (task : Task) (rest : List Task)
        → a.tasks ≡ task ∷ rest
        → Step [] a (run_task task rest a)

  -- a run, with the tasks sent in it, in their order
  pub data Steps : List Task → Actor → Actor → Type 0 where
    stop : {a : Actor} → Steps [] a a
    step :
        {a b c : Actor} {sent more : List Task}
        → Step sent a b
        → Steps more b c
        → Steps (sent ++ more) a c

  -- the specification: the tasks, one after the other
  unfoldable pub serve : List Task → Conn × List (ℕ × Reply) → Conn × List (ℕ × Reply)
  serve [] s = s
  serve ((ticket, inner) ∷ tasks) (conn, replies) =
      let (res, conn') = inner conn in serve tasks (conn', replies ++ ((ticket, res) ∷ []))

  -- what comes of an actor once its channel is empty
  abbrev pub drained : Actor → Conn × List (ℕ × Reply)
  drained a = serve a.tasks (a.conn, a.replies)

  serve-append :
      (xs ys : List Task) (s : Conn × List (ℕ × Reply)) → serve (xs ++ ys) s ≡ serve ys (serve xs s)
  unfolding serve
  serve-append [] ys s = refl
  serve-append (x ∷ xs) ys s = serve-append xs ys _

  Step-drained :
      {sent : List Task} {a b : Actor} → Step sent a b → drained b ≡ serve sent (drained a)
  unfolding serve send_async run_task
  Step-drained {a} (sends task h) = serve-append a.tasks (task ∷ []) (a.conn, a.replies)
  Step-drained {a} (runs task rest h) = sym (ap (λ q. serve q (a.conn, a.replies)) h)

  -- Whatever the interleaving of senders and thread, an actor that ends with an empty channel has
  -- done the tasks that were waiting and then those that were sent, one after the other and each
  -- on the connection that the one before it left, and has answered each once.
  pub Steps-serve :
      {sent : List Task} {a b : Actor}
      → Steps sent a b
      → drained b ≡ serve (a.tasks ++ sent) (a.conn, a.replies)
  unfolding serve
  Steps-serve {a} stop = ap (λ q. serve q (a.conn, a.replies)) (sym (append-nil a.tasks))
  Steps-serve {a} (step {b} {c} {sent} {more} s ss) =
      Steps-serve ss
      ∙ serve-append b.tasks more (b.conn, b.replies)
      ∙ ap (serve more) (Step-drained s)
      ∙ sym (serve-append sent more (drained a))
      ∙ sym (serve-append a.tasks (sent ++ more) (a.conn, a.replies))

  Step-capacity :
      {sent : List Task} {a b : Actor}
      → Step sent a b
      → length a.tasks ≤ capacity
      → length b.tasks ≤ capacity
  unfolding send_async run_task
  Step-capacity {a} (sends task room) h = omega (arith, length-append a.tasks (task ∷ []), room)
  Step-capacity {a} (runs task rest e) h = omega (arith, ap length e, h)

  -- The channel never holds more than its capacity.
  pub Steps-capacity :
      {sent : List Task} {a b : Actor}
      → Steps sent a b
      → length a.tasks ≤ capacity
      → length b.tasks ≤ capacity
  Steps-capacity stop h = h
  Steps-capacity (step s ss) h = Steps-capacity ss (Step-capacity s h)

-- ===== src/Handle/Actor/Submit.antt =====
-- `submit_task` of src/storage/mod.rs as Handle.antt has it, against the channel and the thread.
use replicat.Prelude.{ℕ, ◌≡◌, refl, sym, ap, ◌∙◌, arith, List, [], ◌∷◌, ◌++◌}
use replicat.Exec.{Result}
use replicat.Env.{Env, SqlError}
use replicat.Handle.{World, StorageHandle, set_at, submit_task}
use replicat.Handle.Effects.{set_at_lem}
use replicat.Handle.Actor.{
  Task, Actor, sends, runs, Steps, stop, step, send_async, run_task, serve, drained, Steps-serve,
}

module _ (Conn Reply : Type 0) where
  -- an actor whose channel is empty
  abbrev idle : Conn × List (ℕ × Reply) → Actor Conn Reply
  idle (conn, replies) = record { tasks = []; conn = conn; replies = replies }

  -- The thread alone empties the channel, and a run goes on from there.
  drains :
      (ts : List (Task Conn Reply)) {sent : List (Task Conn Reply)} (s : Conn × List (ℕ × Reply))
      (b : Actor Conn Reply)
      → Steps Conn Reply sent (idle (serve Conn Reply ts s)) b
      → Steps Conn Reply sent (record { tasks = ts; conn = s.0; replies = s.1 }) b
  unfolding serve run_task
  drains [] s b run = run
  drains ((ticket, inner) ∷ ts) s b run =
      step (runs (ticket, inner) ts refl)
        (drains ts ((inner s.0).1, s.1 ++ ((ticket, (inner s.0).0) ∷ [])) b run)

module _ (env : Env) (A : Type 0) (h : StorageHandle) where
  open env use {Conn}

  abbrev Reply : Type 0
  Reply = Result SqlError A

  -- the calls one after the other, each with its ticket
  unfoldable pub submit_all :
      List (Task Conn Reply) → List (ℕ × Reply) × World env → List (ℕ × Reply) × World env
  unfolding submit_task
  submit_all [] s = s
  submit_all ((ticket, inner) ∷ ts) (replies, w) =
      let (res, w') = submit_task env h inner w in
      submit_all ts (replies ++ ((ticket, res) ∷ []), w')

  submit_all-serve :
      (ts : List (Task Conn Reply)) (conn : Conn) (replies : List (ℕ × Reply)) (w : World env)
      → w.conns h.tx ≡ conn
      → let (answers, w') = submit_all ts (replies, w) in
        serve Conn Reply ts (conn, replies) ≡ (w'.conns h.tx, answers)
  unfolding submit_all serve submit_task
  submit_all-serve [] conn replies w e = ap (λ c. (c, replies)) (sym e)
  submit_all-serve ((ticket, inner) ∷ ts) conn replies w e =
      let (res, conn') = inner conn in
      let w' : World env = record w { conns = set_at w.conns h.tx conn' } in
      rw (e, submit_all)
        (submit_all-serve ts conn' (replies ++ ((ticket, res) ∷ [])) w'
          (set_at_lem w.conns h.tx conn'))

  -- Whatever the interleaving of senders and thread, an actor that starts and ends with an empty
  -- channel has given the answers, and left the connection, of `submit_task` as Handle.antt has it,
  -- called for one task after the other in the order in which they were sent.
  pub Steps-submit_all :
      {sent : List (Task Conn Reply)} {a b : Actor Conn Reply} (w : World env)
      → Steps Conn Reply sent a b
      → a.tasks ≡ []
      → b.tasks ≡ []
      → w.conns h.tx ≡ a.conn
      → let (answers, w') = submit_all sent (a.replies, w) in
        (b.replies ≡ answers) × (b.conn ≡ w'.conns h.tx)
  unfolding serve
  Steps-submit_all {sent} {a} {b} w run empty drained_b e =
      let calls =
        ap (λ ts. serve Conn Reply ts (b.conn, b.replies)) (sym drained_b)
        ∙ Steps-serve Conn Reply run
        ∙ ap (λ ts. serve Conn Reply (ts ++ sent) (a.conn, a.replies)) empty
        ∙ submit_all-serve sent a.conn a.replies w e in
      (ap (λ z. z.1) calls, ap (λ z. z.0) calls)

  -- From any state of an actor, with a channel that is full or not, there is a run in which one
  -- caller sends its task and the channel is emptied; the answer that is sent back to the caller is
  -- that of `submit_task` of Handle.antt in the world that the tasks before it have left.
  pub submit_task-answered :
      (a : Actor Conn Reply) (ticket : ℕ) (inner : Conn → Reply × Conn) (w : World env)
      → w.conns h.tx ≡ (drained Conn Reply a).0
      → let (res, w') = submit_task env h inner w in
        (b : Actor Conn Reply) × Steps Conn Reply ((ticket, inner) ∷ []) a b
        × (b.tasks ≡ [])
        × (b.conn ≡ w'.conns h.tx)
        × (b.replies ≡ (drained Conn Reply a).1 ++ ((ticket, res) ∷ []))
  unfolding submit_task run_task send_async
  submit_task-answered a ticket inner w e =
      let (conn, replies) = drained Conn Reply a in
      let (res, conn') = inner conn in
      let b : Actor Conn Reply = record {
        tasks = [];
        conn = conn';
        replies = replies ++ ((ticket, res) ∷ []);
      } in
      (
        b,
        drains Conn Reply a.tasks (a.conn, a.replies) b
            (step (sends (ticket, inner) (omega arith)) (step (runs (ticket, inner) [] refl) stop)),
        refl,
        ap (λ c. (inner c).1) (sym e) ∙ sym (set_at_lem w.conns h.tx (inner (w.conns h.tx)).1),
        ap (λ c. replies ++ ((ticket, (inner c).0) ∷ [])) (sym e),
      )

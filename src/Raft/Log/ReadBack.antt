-- ===== src/Raft/Log/ReadBack.antt =====
-- `try_get_log_entries` after `append_to_log`.
use mathlib.Core.List.{Perm, append-nil}
use replicat.Prelude.{◌≡◌, sym, subst, ap, ◌∙◌, inl, inr, List, ◌++◌}
use replicat.Exec.{ok}
use replicat.Openraft.{Entry}
use replicat.Env.{Env, IsFaithful}
use replicat.Raft.{System}
use replicat.Raft.Log.{Range, append_to_log, try_get_log_entries}
use replicat.Raft.Log.Abstract.{put_entries, where_index, Encodes}
use replicat.Raft.Log.Append.{append_to_log-Appended}
use replicat.Raft.Log.Bounds.{contains, RangeFits, AllFit}
use replicat.Raft.Log.Reads.{try_get_log_entries-Perm}
use replicat.Raft.Log.Writes.{log_tables, Refines}

module _ (env : Env) (law : IsFaithful env) where
  open env use {Membership}

  append_to_log-Refines :
      (es log : List (Entry Membership)) (s : System env)
      → Refines s log
      → (append_to_log env es s).0 ≡ ok tt
      → Refines (append_to_log env es s).1 (put_entries es log)
  unfolding append_to_log
  append_to_log-Refines es log s a o =
      let d = append_to_log-Appended env law es s log a in
      elim d.complete [
        | inr failed ↦ absurd (failed o)
        | inl whole ↦
            let all : d.done ≡ es =
              sym (append-nil d.done) ∙ sym (ap (λ l. d.done ++ l) whole) ∙ d.parts in
            subst
              (λ l. Encodes env (log_tables (append_to_log env es s).1).logs (put_entries l log))
              all d.rows
      ]

  -- After entries were appended, a range that is read has exactly the entries of the log with them
  -- written whose index it contains: an entry that was there before is found where no new one has
  -- its index, and a new one where no later one has. The range's ends must not wrap around, and every
  -- index must be below 2^63.
  pub append_to_log-try_get_log_entries :
      (range : Range) (es log got : List (Entry Membership)) (s : System env)
      → Refines s log
      → RangeFits range
      → AllFit (put_entries es log)
      → (append_to_log env es s).0 ≡ ok tt
      → (try_get_log_entries env range (append_to_log env es s).1).0 ≡ ok got
      → Perm got (where_index (contains range) (put_entries es log))
  append_to_log-try_get_log_entries range es log got s a fits below o read =
      try_get_log_entries-Perm env law range (append_to_log env es s).1 (put_entries es log) got
        (append_to_log-Refines es log s a o) fits below read

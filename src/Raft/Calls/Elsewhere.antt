-- ===== src/Raft/Calls/Elsewhere.antt =====
-- A call on one handle leaves the databases of the other threads alone.
use replicat.Prelude.{ℕ, String, ◌≡◌, ◌≢◌, refl, arith, ◌∙◌, List, [], ◌∷◌}
use replicat.Exec.{Result, >>=-keeps}
use replicat.Openraft.{Entry}
use replicat.Sql.{Sql, Param, Row}
use replicat.Env.{Env, Codec, SqlError}
use replicat.Handle.{StorageHandle, World, execute_or, execute, fetch_one, fetch_all, submit_task}
use replicat.Handle.Effects.{views}
use replicat.Kv.{kv_put, kv_get}
use replicat.Raft.Log.{append_entry, append_entries}

module _ (env : Env) (h : StorageHandle) (i : ℕ) (other : i ≢ h.tx) where
  open env use {Membership}

  pub execute_or-other :
      {E : Type 0} (fail : E) (sql : Sql) (params : List Param) (w : World env)
      → views (execute_or env fail h sql params w).1 i ≡ views w i
  unfolding execute_or execute submit_task
  execute_or-other fail sql params w = ground arith

  pub fetch_one-other :
      {A : Type 0} (from_row : Row → Result SqlError A) (sql : Sql) (params : List Param)
      (w : World env)
      → views (fetch_one env h from_row sql params w).1 i ≡ views w i
  unfolding fetch_one submit_task
  fetch_one-other from_row sql params w = ground arith

  pub fetch_all-other :
      {A : Type 0} (from_row : Row → Result SqlError A) (sql : Sql) (params : List Param)
      (w : World env)
      → views (fetch_all env h from_row sql params w).1 i ≡ views w i
  unfolding fetch_all submit_task
  fetch_all-other from_row sql params w = ground arith

  pub kv_put-other :
      {E A : Type 0} (codec : Codec A) (fail : E) (k : String) (a : A) (w : World env)
      → views (kv_put env codec fail h k a w).1 i ≡ views w i
  unfolding kv_put execute_or execute submit_task
  kv_put-other codec fail k a w = ground arith

  pub kv_get-other :
      {E A : Type 0} (codec : Codec A) (fail : E) (k : String) (w : World env)
      → views (kv_get env codec fail h k w).1 i ≡ views w i
  unfolding kv_get fetch_one submit_task
  kv_get-other codec fail k w = ground arith

  append_entry-other :
      (e : Entry Membership) (w : World env) → views (append_entry env h e w).1 i ≡ views w i
  unfolding append_entry execute_or execute submit_task
  append_entry-other e w = ground arith

  pub append_entries-other :
      (es : List (Entry Membership)) (w : World env)
      → views (append_entries env h es w).1 i ≡ views w i
  unfolding append_entries
  append_entries-other [] w = refl
  append_entries-other (e ∷ es) w =
      >>=-keeps (λ w'. views w' i ≡ views w i) (append_entry env h e) (λ _. append_entries env h es)
        w (append_entry-other e w)
        (λ _ _. append_entries-other es (append_entry env h e w).1 ∙ append_entry-other e w)

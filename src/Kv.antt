-- ===== src/Kv.antt =====
-- The key-value table of src/storage/raft.rs: the pairs of calls by which a value is written under
-- a key (`to_bytes` and REPLICAT_KV_UPSERT) and read back (REPLICAT_KV_SELECT_VALUE, `from_bytes`).
-- All errors of one such pair are mapped to one error, `fail`.
pub mod Effects
use replicat.Prelude.{String, Option, List, [], ◌∷◌}
use replicat.Exec.{Result, Exec, pure, lift, map_err, with_err, transpose, ◌>>=◌}
use replicat.Sql.{Bytes, key, bytes, kv_select_value, kv_upsert}
use replicat.Env.{Env, Codec}
use replicat.Library.{to_bytes, from_bytes}
use replicat.Handle.{StorageHandle, World, execute_or, fetch_one, from_row_bytes}

module _ (env : Env) {E A : Type 0} (codec : Codec A) (fail : E) (h : StorageHandle)
    (k : String) where
  unfoldable pub kv_put : A → Exec (World env) E Unit
  kv_put a = do
    raw ← lift (map_err (λ _. fail) (to_bytes codec a))
    execute_or env fail h kv_upsert (key k ∷ bytes raw ∷ [])

  unfoldable pub kv_get : Exec (World env) E (Option A)
  kv_get = do
    raw ← with_err (λ _. fail) (fetch_one env h (from_row_bytes env) kv_select_value (key k ∷ []))
    lift (transpose (λ data'. map_err (λ _. fail) (from_bytes codec data')) raw)

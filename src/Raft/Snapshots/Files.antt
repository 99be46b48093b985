-- ===== src/Raft/Snapshots/Files.antt =====
-- The file that `create_snapshot` leaves. It is opened with `create` and without `truncate`.
use mathlib.Core.List.{append-nil}
use replicat.Prelude.{
  ℕ, zero, suc, ◌≤◌, ◌≡◌, refl, ◌∙◌, ap, arith, Option, none, some, [], ◌∷◌, ◌++◌, length, drop,
  fun_ext,
}
use replicat.Exec.{ok, pure, >>=-keeps}
use replicat.Sql.{Bytes, select_schema}
use replicat.Env.{Env, IsFaithful, FilePath, overlay}
use replicat.Handle.{
  StorageHandle, World, submit_task, serialize_db, serialize, serialize_if, fetch_one,
  from_row_string,
}
use replicat.Handle.Effects.{views}
use replicat.Raft.Snapshots.{write_snapshot_file}

drop-nil : (n : ℕ) → ◌≡◌ {A = Bytes} (drop n []) []
drop-nil zero = refl
drop-nil (suc n) = refl

overlay-open : (b : Bytes) (o : Option Bytes) → overlay b (some (overlay [] o)) ≡ overlay b o
overlay-open b none = ap (λ l. b ++ l) (drop-nil (length b)) ∙ append-nil b
overlay-open b (some old) = refl

-- A file that was not longer than what is written holds exactly that.
drop-short : (n : ℕ) (old : Bytes) → length old ≤ n → ◌≡◌ {A = Bytes} (drop n old) []
drop-short zero [] h = refl
drop-short zero (x ∷ old) h = absurd (omega arith)
drop-short (suc n) [] h = refl
drop-short (suc n) (x ∷ old) h = drop-short n old (omega arith)

pub overlay-short : (b old : Bytes) → length old ≤ length b → overlay b (some old) ≡ b
overlay-short b old h = ap (λ l. b ++ l) (drop-short (length b) old h) ∙ append-nil b

module _ (env : Env) (law : IsFaithful env) where
  open env use {Disk, file, open_write, write_all, sync_file}

  pub write_snapshot_file-conns :
      (path : FilePath) (b : Bytes) (w : World env)
      → (write_snapshot_file env path b w).1.conns ≡ w.conns
  unfolding write_snapshot_file
  write_snapshot_file-conns path b w = ground arith

  pub write_snapshot_file-file :
      (path : FilePath) (b : Bytes) (w : World env)
      → (write_snapshot_file env path b w).0 ≡ ok tt
      → file (write_snapshot_file env path b w).1.disk path ≡ some (overlay b (file w.disk path))
  unfolding write_snapshot_file
  write_snapshot_file-file path b w e =
      let d1 = (open_write w.disk path).1 in
      let d2 = (write_all d1 path b).1 in
      let d3 = (sync_file d2 path).1 in
      ground (
        arith,
        law.open_write_ok w.disk path,
        law.write_all_ok d1 path b,
        law.sync_file_ok d2 path,
        law.sync_file_ok d3 path,
        overlay-open b (file w.disk path),
      )

  pub serialize-disk : (h : StorageHandle) (w : World env) → (serialize env h w).1.disk ≡ w.disk
  unfolding serialize fetch_one
  serialize-disk h w = ground arith

  pub schema-views :
      (h : StorageHandle) (w : World env)
      → views (fetch_one env h (from_row_string env) select_schema [] w).1 ≡ views w
  unfolding fetch_one
  schema-views h w = fun_ext λ j. ground (arith, law.schema_ok (w.conns h.tx))

  dump-views :
      (h : StorageHandle) (w : World env)
      → views (submit_task env h (serialize_db env) w).1 ≡ views w
  unfolding submit_task serialize_db
  dump-views h w = fun_ext λ j. ground arith

  pub serialize_if-views :
      (h : StorageHandle) (name : Option _) (w : World env)
      → views (serialize_if env h name w).1 ≡ views w
  serialize_if-views h none w = refl
  serialize_if-views h (some _) w =
      >>=-keeps (λ w'. views w' ≡ views w) (submit_task env h (serialize_db env))
        (λ mem. pure (some mem)) w (dump-views h w) (λ mem e. dump-views h w)

  pub serialize-views : (h : StorageHandle) (w : World env) → views (serialize env h w).1 ≡ views w
  unfolding serialize
  serialize-views h w =
      >>=-keeps (λ w'. views w' ≡ views w) (fetch_one env h (from_row_string env) select_schema [])
        (serialize_if env h) w (schema-views h w)
        λ name e.
          serialize_if-views h name (fetch_one env h (from_row_string env) select_schema [] w).1
          ∙ schema-views h w

-- ===== src/Env/Memory.antt =====
-- A concrete environment, on which the theorems' hypotheses hold: a database is the list of its
-- statements, a disk is a function, and nothing fails but what is not understood.
pub mod Statements
pub mod Codecs
use mathlib.Core.List as List
use replicat.Prelude.{
  ℕ, zero, suc, ◌+◌, ◌≡◌, refl, ap, subst, ◌∙◌, inl, inr, arith, String, Bool, true, false, Option,
  none, some, List, [], ◌∷◌, ◌==◌, if◌then◌else◌, Bool-cases, length, str_eq, eq_iff,
}
use replicat.Prelude.Int.{ℤ}
use replicat.Exec.{Result, ok, err}
use replicat.Sql.{
  Bytes, Value, Param, Row, Sql, client, select_schema, select_logs, pragma_journal_mode,
  pragma_synchronous, pragma_temp_store, pragma_journal_off, pragma_synchronous_off,
}
use replicat.Sql.Tables.{Tables, meaning, update}
use replicat.Openraft.{LogId}
use replicat.Env.{
  Env, IsFaithful, SqlError, bad_column, IoError, not_found, FilePath, overlay, Shows,
}
use replicat.Env.Memory.Statements.{decode, encode, replay, record_statement, replay-record}
use replicat.Env.Memory.Codecs

abbrev bytes_of : Value → Result SqlError Bytes
bytes_of (Value.blob b) = ok b
bytes_of _ = err bad_column

abbrev integer_of : Value → Result SqlError ℤ
integer_of (Value.integer i) = ok i
integer_of _ = err bad_column

abbrev text_of : Value → Result SqlError String
text_of (Value.text t) = ok t
text_of _ = err bad_column

abbrev Log : Type 0
Log = List ℕ

-- What a statement outside the tables answers: a client may send any text but one.
abbrev answer : Sql → Result SqlError (List Row)
answer (client sql) = if str_eq sql "bad" then err bad_column else ok []
answer pragma_synchronous = ok []
answer pragma_synchronous_off = ok []
answer pragma_journal_off = ok ((Value.text "off" ∷ []) ∷ [])
answer pragma_temp_store = ok []
answer pragma_journal_mode = ok ((Value.text "wal" ∷ []) ∷ [])
answer select_schema = ok ((Value.text "replicat_kv_states" ∷ []) ∷ [])
answer _ = err bad_column

abbrev run_coded :
    {s : Sql} {ps : List Param}
    → Log
    → List Row
    → List ℕ
    → Option ((xs : List ℕ) × (decode xs ≡ some (s, ps)))
    → Result SqlError (List Row) × Log
run_coded c rows [] (some (xs, _)) = (ok rows, record_statement xs c)
run_coded c rows _ _ = (err bad_column, c)

abbrev run_meaning :
    (c : Log) (s : Sql) (ps : List Param)
    → Option (Tables × List Row)
    → Result SqlError (List Row) × Log
run_meaning c s ps none = (answer s, c)
run_meaning c s ps (some (_, rows)) = run_coded c rows (replay c).0 (encode s ps)

abbrev run : Log → Sql → List Param → Result SqlError (List Row) × Log
run c s ps = run_meaning c s ps (meaning s ps (replay c).1)

abbrev row_count : Result SqlError (List Row) → Result SqlError ℕ
row_count (ok rows) = ok (length rows)
row_count (err e) = err e

abbrev content : Option Bytes → Result IoError Bytes
content none = err not_found
content (some b) = ok b

-- what a path is opened as is left open
abbrev pub memory_on : (FilePath → Result SqlError Log) → Env
memory_on files = record {
  Conn = Log;
  tables = λ c. (replay c).1;
  open_conn = files;
  open_in_memory = ok [];
  run_execute = λ c s ps. let (r, c') = run c s ps in (row_count r, c');
  run_query = run;
  bytes_from_sql = bytes_of;
  i64_from_sql = integer_of;
  string_from_sql = text_of;
  sqlite3_malloc64 = λ n. if n == 0 then false else true;
  sqlite3_serialize = λ c. some c;
  sqlite3_deserialize = λ _ b. (0, b);
  image_tables = λ b. (replay b).1;
  Disk = FilePath → Option Bytes;
  file = λ d p. d p;
  open_write = λ d p. (ok tt, update d p (some (overlay [] (d p))));
  write_all = λ d p b. (ok tt, update d p (some (overlay b (d p))));
  sync_file = λ d p. (ok tt, d);
  read_file = λ d p. content (d p);
  Membership = ℕ;
  EffectiveMembership = Codecs.Effective;
  effective_new = λ id m. (id, m);
  effective_default = (none, 0);
  display_leader = λ _. "n";
  log_id_codec = Codecs.log_id_codec;
  vote_codec = Codecs.vote_codec;
  entry_codec = Codecs.entry_codec;
  membership_codec = Codecs.membership_codec;
  meta_codec = Codecs.meta_codec;
}

abbrev pub memory : Env
memory = memory_on λ _. ok []

run_coded-ok :
    (s : Sql) (ps : List Param) (c : Log) (rows got : List Row) (t : Tables) (xs : List ℕ)
    (o : Option ((ys : List ℕ) × (decode ys ≡ some (s, ps))))
    → (replay c).0 ≡ xs
    → meaning s ps (replay c).1 ≡ some (t, rows)
    → (run_coded c rows xs o).0 ≡ ok got
    → ((replay (run_coded c rows xs o).1).1 ≡ t) × (got ≡ rows)
run_coded-ok s ps c rows got t [] (some (ys, p)) clean m e =
    (replay-record s ps ys c t rows p clean m, ground arith)
run_coded-ok s ps c rows got t [] none clean m e = ground arith
run_coded-ok s ps c rows got t (x ∷ xs) o clean m e = ground arith

run_coded-err :
    (s : Sql) (ps : List Param) (c : Log) (rows : List Row) (e : SqlError) (xs : List ℕ)
    (o : Option ((ys : List ℕ) × (decode ys ≡ some (s, ps))))
    → (run_coded c rows xs o).0 ≡ err e
    → (run_coded c rows xs o).1 ≡ c
run_coded-err s ps c rows e [] (some (ys, p)) h = ground arith
run_coded-err s ps c rows e [] none h = refl
run_coded-err s ps c rows e (x ∷ xs) o h = refl

run-run_coded :
    (c : Log) (s : Sql) (ps : List Param) (t : Tables) (want : List Row)
    → meaning s ps (replay c).1 ≡ some (t, want)
    → run c s ps ≡ run_coded c want (replay c).0 (encode s ps)
run-run_coded c s ps t want m = ap (run_meaning c s ps) m

run-ok :
    (c : Log) (s : Sql) (ps : List Param) (t : Tables) (want got : List Row)
    → meaning s ps (replay c).1 ≡ some (t, want)
    → (run c s ps).0 ≡ ok got
    → ((replay (run c s ps).1).1 ≡ t) × (got ≡ want)
run-ok c s ps t want got m e =
    let q = run-run_coded c s ps t want m in
    let (a, b) =
      run_coded-ok s ps c want got t (replay c).0 (encode s ps) refl m
        (subst (λ (z : Result SqlError (List Row) × Log). z.0 ≡ ok got) q e) in
    (ap (λ (z : Result SqlError (List Row) × Log). (replay z.1).1) q ∙ a, b)

run_meaning-err :
    (c : Log) (s : Sql) (ps : List Param) (o : Option (Tables × List Row)) (e : SqlError)
    → (run_meaning c s ps o).0 ≡ err e
    → (run_meaning c s ps o).1 ≡ c
run_meaning-err c s ps none e h = refl
run_meaning-err c s ps (some (_, rows)) e h =
    run_coded-err s ps c rows e (replay c).0 (encode s ps) h

Shows-refl : (s : Sql) (got want : List Row) → got ≡ want → Shows s got want
Shows-refl (select_logs a b) got want e = subst (List.Perm got) e (List.Perm.refl got)
Shows-refl s got want e = e

row_count-ok :
    (r : Result SqlError (List Row)) (n : ℕ)
    → row_count r ≡ ok n
    → (rows : List Row) × (r ≡ ok rows)
row_count-ok (ok rows) n e = (rows, refl)
row_count-ok (err x) n e = ground arith

row_count-err : (r : Result SqlError (List Row)) (e : SqlError) → row_count r ≡ err e → r ≡ err e
row_count-err (ok rows) e h = ground arith
row_count-err (err x) e h = ground arith

update-same : (d : FilePath → Option Bytes) (p : FilePath) (v : Option Bytes) → update d p v p ≡ v
update-same d p v = ap (λ (z : Bool). if z then v else d p) ((eq_iff p p).1 refl)

content-ok : (o : Option Bytes) (b : Bytes) → content o ≡ ok b → o ≡ some b
content-ok none b e = ground arith
content-ok (some a) b e = ground arith

content-missing : (o : Option Bytes) → content o ≡ err not_found → o ≡ none
content-missing none e = refl
content-missing (some a) e = ground arith

pub memory_on-IsFaithful : (files : FilePath → Result SqlError Log) → IsFaithful (memory_on files)
unfolding meaning
memory_on-IsFaithful files = record {
  execute_ok = λ c s ps t rows n m e.
      let (got, o) = row_count-ok (run c s ps).0 n e in (run-ok c s ps t rows got m o).0;
  execute_err = λ c s ps e h.
      ap (λ z. (replay z).1)
        (run_meaning-err c s ps (meaning s ps (replay c).1) e (row_count-err (run c s ps).0 e h));
  query_ok = λ c s ps t want got m e.
      let (a, b) = run-ok c s ps t want got m e in (a, Shows-refl s got want b);
  query_err =
      λ c s ps e h. ap (λ z. (replay z).1) (run_meaning-err c s ps (meaning s ps (replay c).1) e h);
  schema_ok = λ c. refl;
  journal_mode_ok = λ c. refl;
  synchronous_ok = λ c. refl;
  temp_store_ok = λ c. refl;
  bytes_ok = λ b. refl;
  i64_ok = λ i. refl;
  malloc_zero = refl;
  serialize_ok = λ c b e. ground arith;
  deserialize_ok = λ c b e. refl;
  open_write_ok = λ d p e. update-same d p (some (overlay [] (d p)));
  write_all_ok = λ d p b e. update-same d p (some (overlay b (d p)));
  sync_file_ok = λ d p e. refl;
  read_file_ok = λ d p b e. content-ok (d p) b e;
  read_file_missing = λ d p e. content-missing (d p) e;
  log_id_ok = Codecs.log_id_codec-IsRoundTrip;
  vote_ok = Codecs.vote_codec-IsRoundTrip;
  entry_ok = Codecs.entry_codec-IsRoundTrip;
  membership_ok = Codecs.membership_codec-IsRoundTrip;
  meta_ok = Codecs.meta_codec-IsRoundTrip;
}

pub memory-IsFaithful : IsFaithful memory
memory-IsFaithful = memory_on-IsFaithful λ _. ok []

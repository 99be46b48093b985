-- ===== src/Sql/Tables.antt =====
-- The two tables of src/storage/raft.rs (lines 44-57), and what each statement of the source does
-- to them. A table with a primary key is kept in the order of that key.
use replicat.Prelude.{
  ℕ, zero, suc, ◌+◌, ◌^◌, String, Bool, ◌&&◌, Option, none, some, List, [], ◌∷◌, map, ltb, leb,
  ◌==◌, str_eq, if◌then◌else◌, select, get_last,
}
use replicat.Prelude.Int.{ℤ, pos, negsuc}
use replicat.Sql.{
  Bytes, Value, integer, blob, Param, key, bytes, u64, Row, Sql, create_kv_table, create_logs_table,
  kv_select_value, kv_upsert, kv_increment, kv_insert_zero, select_last_log, log_upsert,
  delete_logs_since, delete_logs_upto, select_logs,
}

-- replicat_raft_logs
pub record LogRow : Type 0 where
  pub node_id : ℕ
  pub log_index : ℕ
  pub term : ℕ
  pub entry : Bytes

-- A table that is not there yet has no rows.
pub record Tables : Type 0 where
  pub kv : String → Option Value
  pub logs : List LogRow

abbrev pub no_tables : Tables
no_tables = record { kv = λ _. none; logs = [] }

abbrev pub update {ℓ} : {A : Type ℓ} → (String → A) → String → A → String → A
update f k v j = if str_eq k j then v else f j

-- INSERT … ON CONFLICT(log_index) DO UPDATE
unfoldable pub put_row : LogRow → List LogRow → List LogRow
put_row r [] = r ∷ []
put_row r (x ∷ xs) =
    let rest = put_row r xs in
    if ltb r.log_index x.log_index
    then r ∷ x ∷ xs
    else if r.log_index == x.log_index
    then r ∷ xs
    else x ∷ rest

abbrev pub is_before : ℕ → LogRow → Bool
is_before i r = ltb r.log_index i

abbrev pub is_after : ℕ → LogRow → Bool
is_after i r = ltb i r.log_index

abbrev pub is_between : ℕ → ℕ → LogRow → Bool
is_between start end r = leb start r.log_index && leb r.log_index end

abbrev pub entry_row : LogRow → Row
entry_row r = blob r.entry ∷ []

abbrev pub id_row : LogRow → Row
id_row r = integer (pos r.node_id) ∷ integer (pos r.log_index) ∷ integer (pos r.term) ∷ []

abbrev pub rows_of {ℓ} : {A : Type ℓ} → (A → Row) → Option A → List Row
rows_of f none = []
rows_of f (some a) = f a ∷ []

-- value + 1, where it is an `i64` again
abbrev pub succ_int : ℤ → Option ℤ
succ_int (pos n) = if ltb (n + 1) (2 ^ 63) then some (pos (n + 1)) else none
succ_int (negsuc zero) = some (pos 0)
succ_int (negsuc (suc n)) = some (negsuc n)

abbrev pub counted : String → Tables → Option ℤ → Option (Tables × List Row)
counted k t none = none
counted k t (some n) =
    some (record t { kv = update t.kv k (some (integer n)) }, (integer n ∷ []) ∷ [])

abbrev pub increment : String → Tables → Option Value → Option (Tables × List Row)
increment k t none = some (t, [])
increment k t (some (integer n)) = counted k t (succ_int n)
increment k t (some _) = none

abbrev pub insert_zero : String → Tables → Option Value → Option (Tables × List Row)
insert_zero k t none = some (record t { kv = update t.kv k (some (integer (pos 0))) }, [])
insert_zero k t (some _) = none

-- The tables after a statement that succeeds, and the rows that it returns; `none` where the
-- source relies on nothing: a client's own text, a parameter of another kind, a value that is not
-- a number, a key that is there already.
unfoldable pub meaning : Sql → List Param → Tables → Option (Tables × List Row)
unfolding put_row
meaning create_kv_table [] t = some (t, [])
meaning create_logs_table [] t = some (t, [])
meaning kv_select_value (key k ∷ []) t = some (t, rows_of (λ v. v ∷ []) (t.kv k))
meaning kv_upsert (key k ∷ bytes b ∷ []) t =
    some (record t { kv = update t.kv k (some (blob b)) }, [])
meaning kv_increment (key k ∷ []) t = increment k t (t.kv k)
meaning kv_insert_zero (key k ∷ []) t = insert_zero k t (t.kv k)
meaning select_last_log [] t = some (t, rows_of id_row (get_last t.logs))
meaning log_upsert (u64 node ∷ u64 index ∷ u64 term ∷ bytes e ∷ []) t =
    let r : LogRow = record { node_id = node; log_index = index; term = term; entry = e } in
    some (record t { logs = put_row r t.logs }, [])
meaning delete_logs_since (u64 i ∷ []) t =
    some (record t { logs = select (is_before i) t.logs }, [])
meaning delete_logs_upto (u64 i ∷ []) t = some (record t { logs = select (is_after i) t.logs }, [])
meaning (select_logs start end) [] t =
    some (t, map entry_row (select (is_between start end) t.logs))
meaning _ _ _ = none

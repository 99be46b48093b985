-- ===== src/Env/Memory/Statements.antt =====
-- A database of `Memory` is the list of the statements that were executed on it, as bytes, the last
-- one first.
use mathlib.Core.List.{append-nil}
use replicat.Prelude.{
  ℕ, zero, suc, String, ◌≡◌, refl, ap, ◌∙◌, inl, inr, Option, none, some, List, [], ◌∷◌, ◌++◌, map,
  str_eq, eq_iff, Bool-cases,
}
use replicat.Sql.{
  Bytes, Param, key, bytes, u64, Row, Sql, create_kv_table, create_logs_table, kv_select_value,
  kv_upsert, kv_increment, kv_insert_zero, select_last_log, log_upsert, delete_logs_since,
  delete_logs_upto, select_logs,
}
use replicat.Sql.Tables.{Tables, no_tables, meaning}
use replicat.Raft.{
  snapshot_meta_key, last_membership_key, last_log_key, vote_key, snapshot_index_key,
  last_purged_id_key,
}

abbrev key_name : ℕ → String
key_name zero = vote_key
key_name (suc zero) = last_log_key
key_name (suc (suc zero)) = last_membership_key
key_name (suc (suc (suc zero))) = snapshot_meta_key
key_name (suc (suc (suc (suc zero)))) = snapshot_index_key
key_name _ = last_purged_id_key

abbrev find_key : (k : String) → List ℕ → Option ((n : ℕ) × (key_name n ≡ k))
find_key k [] = none
find_key k (n ∷ ns) =
    let rest = find_key k ns in
    elim (Bool-cases (str_eq (key_name n) k)) [
      | inl e ↦ some (n, (eq_iff (key_name n) k).0 e)
      | inr _ ↦ rest
    ]

abbrev pub decode : List ℕ → Option (Sql × List Param)
decode (zero ∷ k ∷ b) = some (kv_upsert, key (key_name k) ∷ bytes b ∷ [])
decode ((suc zero) ∷ k ∷ []) = some (kv_increment, key (key_name k) ∷ [])
decode ((suc (suc zero)) ∷ k ∷ []) = some (kv_insert_zero, key (key_name k) ∷ [])
decode ((suc (suc (suc zero))) ∷ k ∷ []) = some (kv_select_value, key (key_name k) ∷ [])
decode ((suc (suc (suc (suc zero)))) ∷ node ∷ index ∷ term ∷ e) =
    some (log_upsert, u64 node ∷ u64 index ∷ u64 term ∷ bytes e ∷ [])
decode ((suc (suc (suc (suc (suc zero))))) ∷ i ∷ []) = some (delete_logs_since, u64 i ∷ [])
decode ((suc (suc (suc (suc (suc (suc zero)))))) ∷ i ∷ []) = some (delete_logs_upto, u64 i ∷ [])
decode ((suc (suc (suc (suc (suc (suc (suc zero))))))) ∷ start ∷ end ∷ []) =
    some (select_logs start end, [])
decode ((suc (suc (suc (suc (suc (suc (suc (suc zero)))))))) ∷ []) = some (select_last_log, [])
decode ((suc (suc (suc (suc (suc (suc (suc (suc (suc zero))))))))) ∷ []) =
    some (create_kv_table, [])
decode ((suc (suc (suc (suc (suc (suc (suc (suc (suc (suc zero)))))))))) ∷ []) =
    some (create_logs_table, [])
decode _ = none

-- a statement as numbers, if it is one of those above
abbrev pub encode :
    (s : Sql) (ps : List Param) → Option ((xs : List ℕ) × (decode xs ≡ some (s, ps)))
encode kv_upsert (key k ∷ bytes b ∷ []) = elim (find_key k (0 ∷ 1 ∷ 2 ∷ 3 ∷ 4 ∷ 5 ∷ [])) [
  | some (n, p) ↦ some (0 ∷ n ∷ b, ap (λ j. some (kv_upsert, key j ∷ bytes b ∷ [])) p)
  | none ↦ none
]
encode kv_increment (key k ∷ []) = elim (find_key k (4 ∷ [])) [
  | some (n, p) ↦ some (1 ∷ n ∷ [], ap (λ j. some (kv_increment, key j ∷ [])) p)
  | none ↦ none
]
encode kv_insert_zero (key k ∷ []) = elim (find_key k (4 ∷ [])) [
  | some (n, p) ↦ some (2 ∷ n ∷ [], ap (λ j. some (kv_insert_zero, key j ∷ [])) p)
  | none ↦ none
]
encode kv_select_value (key k ∷ []) = elim (find_key k (0 ∷ 1 ∷ 2 ∷ 3 ∷ 4 ∷ 5 ∷ [])) [
  | some (n, p) ↦ some (3 ∷ n ∷ [], ap (λ j. some (kv_select_value, key j ∷ [])) p)
  | none ↦ none
]
encode log_upsert (u64 node ∷ u64 index ∷ u64 term ∷ bytes e ∷ []) =
    some (4 ∷ node ∷ index ∷ term ∷ e, refl)
encode delete_logs_since (u64 i ∷ []) = some (5 ∷ i ∷ [], refl)
encode delete_logs_upto (u64 i ∷ []) = some (6 ∷ i ∷ [], refl)
encode (select_logs start end) [] = some (7 ∷ start ∷ end ∷ [], refl)
encode select_last_log [] = some (8 ∷ [], refl)
encode create_kv_table [] = some (9 ∷ [], refl)
encode create_logs_table [] = some (10 ∷ [], refl)
encode _ _ = none

abbrev then_tables : Tables → Option (Tables × List Row) → Tables
then_tables t none = t
then_tables t (some (t', _)) = t'

abbrev run_statement : Option (Sql × List Param) → Tables → Tables
run_statement none t = t
run_statement (some (s, ps)) t = then_tables t (meaning s ps t)

-- A 0 ends a statement, and `n + 1` is the number `n` of one.
abbrev pub replay : Bytes → List ℕ × Tables
replay [] = ([], no_tables)
replay (zero ∷ b) = let (xs, t) = replay b in ([], run_statement (decode xs) t)
replay (suc n ∷ b) = let (xs, t) = replay b in (n ∷ xs, t)

abbrev pub record_statement : List ℕ → Bytes → Bytes
record_statement xs b = 0 ∷ (map suc xs ++ b)

replay-numbers :
    (xs : List ℕ) (b : Bytes) → replay (map suc xs ++ b) ≡ (xs ++ (replay b).0, (replay b).1)
replay-numbers [] b = refl
replay-numbers (x ∷ xs) b = ap (λ (r : List ℕ × Tables). (x ∷ r.0, r.1)) (replay-numbers xs b)

-- What a statement says is what it does.
pub replay-record :
    (s : Sql) (ps : List Param) (xs : List ℕ) (b : Bytes) (t : Tables) (rows : List Row)
    → decode xs ≡ some (s, ps)
    → (replay b).0 ≡ []
    → meaning s ps (replay b).1 ≡ some (t, rows)
    → (replay (record_statement xs b)).1 ≡ t
replay-record s ps xs b t rows d clean m =
    let r = replay-numbers xs b in
    let left : (replay (map suc xs ++ b)).0 ≡ xs =
      ap (λ z. z.0) r ∙ ap (λ ys. xs ++ ys) clean ∙ append-nil xs in
    ap (λ z. run_statement (decode z) (replay (map suc xs ++ b)).1) left
    ∙ ap (λ z. run_statement z (replay (map suc xs ++ b)).1) d
    ∙ ap (λ z. run_statement (some (s, ps)) z) (ap (λ z. z.1) r)
    ∙ ap (then_tables (replay b).1) m

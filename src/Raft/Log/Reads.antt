-- ===== src/Raft/Log/Reads.antt =====
-- `try_get_log_entries` against the abstract log.
use mathlib.Core.List.{Perm, filter_map, filter_map-cons-some}
use mathlib.Core.List.Perm
use mathlib.Core.Path.{subst₂}
use replicat.Prelude.{
  ℕ, ◌≡◌, refl, inl, inr, ◌∙◌, ap, subst, arith, Bool, ◌&&◌, Option, none, some, List, [], ◌∷◌, map,
  leb,
}
use replicat.Exec.{Result, ok, err, Result-cases}
use replicat.Openraft.{Entry}
use replicat.Sql.{Bytes, Row}
use replicat.Sql.Tables.{LogRow, meaning, entry_row}
use replicat.Env.{Env, IsFaithful, SqlError}
use replicat.Handle.{World, from_row_bytes, convert_rows, fetch_all}
use replicat.Handle.Effects.{views, fetch_all-views, fetch_all-rows}
use replicat.Raft.{System}
use replicat.Raft.Log.{
  Bound, Range, range_start, range_end, logs_query, decode_entries, try_get_log_entries,
}
use replicat.Raft.Log.Abstract.{where_index, IsRow, Encodes, Encodes-select}
use replicat.Raft.Log.Writes.{log_tables, Refines}
use replicat.Raft.Log.Bounds.{
  RangeFits, StartFits, AllFit, starts_before, contains, where_index-query, upto_zero,
  where_index-wraps,
}

module _ (env : Env) where
  open env use {Membership, entry_codec, bytes_from_sql}

  -- the entry in a row, if it can be read
  abbrev decoded : Result SqlError Bytes → Option (Entry Membership)
  decoded (err e) = none
  decoded (ok b) = elim (entry_codec.from_slice b) [ ok e ↦ some e | err x ↦ none ]

  abbrev entry_of : Row → Option (Entry Membership)
  entry_of row = decoded (from_row_bytes env row)

  -- what the two loops over the rows collect is what is in the rows
  loops-filter_map :
      (rows : List Row) (bs : List Bytes) (es : List (Entry Membership))
      → convert_rows env (from_row_bytes env) rows ≡ ok bs
      → decode_entries env bs ≡ ok es
      → filter_map entry_of rows ≡ es
  unfolding convert_rows decode_entries filter_map
  loops-filter_map [] bs es c d = ground arith
  loops-filter_map (row ∷ rows) [] es c d = ground arith
  loops-filter_map (row ∷ rows) (b ∷ bs) [] c d = ground arith
  loops-filter_map (row ∷ rows) (b ∷ bs) (e ∷ es) c d = ground (arith, loops-filter_map rows bs es)

  module _ (law : IsFaithful env) where
    entry_of-row :
        (r : LogRow) (e : Entry Membership) → IsRow env r e → entry_of (entry_row r) ≡ some e
    entry_of-row r e h = ground (arith, law.bytes_ok r.entry, law.entry_ok.decode e r.entry h.entry)

    Encodes-filter_map :
        (rs : List LogRow) (es : List (Entry Membership))
        → Encodes env rs es
        → filter_map entry_of (map entry_row rs) ≡ es
    unfolding filter_map
    Encodes-filter_map [] [] a = refl
    Encodes-filter_map [] (e ∷ es) a = elim a [ ]
    Encodes-filter_map (r ∷ rs) [] a = elim a [ ]
    Encodes-filter_map (r ∷ rs) (e ∷ es) a =
        filter_map-cons-some entry_of (entry_row r) (map entry_row rs) (entry_of-row r e a.0)
        ∙ ap (λ l. e ∷ l) (Encodes-filter_map rs es a.1)

    abbrev fetched : Range → System env → Result SqlError (List Bytes) × World env
    fetched range s = fetch_all env s.raft.log (from_row_bytes env) (logs_query range) [] s.world

    -- a successful call returns the entries between the bounds of the query
    try_get_log_entries-query :
        (range : Range) (s : System env) (log es : List (Entry Membership))
        → Refines s log
        → (try_get_log_entries env range s).0 ≡ ok es
        → Perm es (
            where_index
              (λ i. leb (range_start range.start_bound) i && leb i (range_end range.end_bound))
              log)
    unfolding try_get_log_entries meaning
    try_get_log_entries-query range s log es a o = elim (Result-cases (fetched range s).0) [
      | inr (x, g) ↦ ground arith
      | inl (bs, g) ↦
          let (got, shown, conv) =
            fetch_all-rows env law s.raft.log (logs_query range) [] s.world (from_row_bytes env) _ _
              bs refl g in
          let dec : decode_entries env bs ≡ ok es = ground arith in
          let q : ℕ → Bool =
            λ i. leb (range_start range.start_bound) i && leb i (range_end range.end_bound) in
          subst₂ Perm (loops-filter_map got bs es conv dec)
            (Encodes-filter_map _ _ (Encodes-select env q (log_tables s).logs log a))
            (Perm.filter_map entry_of shown)
    ]

    -- The entries that a successful call returns are those of the log whose index the range
    -- contains, each once, if the range's ends do not wrap around and every index is below 2^63;
    -- without an ORDER BY their order is not promised.
    pub try_get_log_entries-Perm :
        (range : Range) (s : System env) (log es : List (Entry Membership))
        → Refines s log
        → RangeFits range
        → AllFit log
        → (try_get_log_entries env range s).0 ≡ ok es
        → Perm es (where_index (contains range) log)
    try_get_log_entries-Perm range s log es a fits below o =
        subst (Perm es) (where_index-query range log fits below)
          (try_get_log_entries-query range s log es a o)

    -- The end of a range up to an excluded 0 wraps around. No index is in such a range, and a
    -- successful call returns, in some order, every entry of the log from the range's start on, if
    -- the start does not wrap around and every index is below 2^63.
    pub try_get_log_entries-wraps :
        (b : Bound) (s : System env) (log es : List (Entry Membership))
        → Refines s log
        → StartFits b
        → AllFit log
        → (try_get_log_entries env (upto_zero b) s).0 ≡ ok es
        → Perm es (where_index (starts_before b) log)
          × (where_index (contains (upto_zero b)) log ≡ [])
    try_get_log_entries-wraps b s log es a fits below o =
        let (all, nothing) = where_index-wraps b log fits below in
        (subst (Perm es) all (try_get_log_entries-query (upto_zero b) s log es a o), nothing)

    pub try_get_log_entries-views :
        (range : Range) (s : System env)
        → views (try_get_log_entries env range s).1.world ≡ views s.world
    unfolding try_get_log_entries meaning
    try_get_log_entries-views range s = ground (
      arith,
      fetch_all-views env law s.raft.log (logs_query range) [] s.world (from_row_bytes env) _ refl,
    )

-- ===== src/Raft/Log/Abstract.antt =====
-- What the Raft log promises openraft: a list of entries in the order of their index, at most one
-- for each index. `Encodes` says that the rows of the table hold such a list.
use replicat.Prelude.{
  ℕ, ◌≡◌, refl, arith, Bool, Option, none, some, List, [], ◌∷◌, ltb, ◌==◌, if◌then◌else◌, select,
  get_last,
}
use replicat.Exec.{ok}
use replicat.Openraft.{LogId, Entry}
use replicat.Sql.Tables.{LogRow, put_row}
use replicat.Env.{Env}

abbrev pub index_of : {M : Type 0} → Entry M → ℕ
index_of e = e.log_id.index

-- The log with an entry written: it takes the place of one with its index.
unfoldable pub put_entry : {M : Type 0} → Entry M → List (Entry M) → List (Entry M)
put_entry e [] = e ∷ []
put_entry e (x ∷ xs) =
    let rest = put_entry e xs in
    if ltb (index_of e) (index_of x)
    then e ∷ x ∷ xs
    else if index_of e == index_of x
    then e ∷ xs
    else x ∷ rest

unfoldable pub put_entries : {M : Type 0} → List (Entry M) → List (Entry M) → List (Entry M)
unfolding put_entry
put_entries [] log = log
put_entries (e ∷ es) log = put_entries es (put_entry e log)

-- the entries whose index passes a test
abbrev pub where_index : {M : Type 0} → (ℕ → Bool) → List (Entry M) → List (Entry M)
where_index q log = select (λ e. q (index_of e)) log

abbrev pub last_id : {M : Type 0} → List (Entry M) → Option LogId
last_id [] = none
last_id (e ∷ []) = some e.log_id
last_id (e ∷ x ∷ log) = last_id (x ∷ log)

abbrev pub row_id : LogRow → LogId
row_id r = record { leader_id = record { term = r.term; node_id = r.node_id }; index = r.log_index }

abbrev pub last_row_id : List LogRow → Option LogId
last_row_id rs = elim (get_last rs) [ none ↦ none | some r ↦ some (row_id r) ]

module _ (env : Env) where
  open env use {Membership, entry_codec}

  pub record IsRow (r : LogRow) (e : Entry Membership) : Type 0 where
    pub node_id : r.node_id ≡ e.log_id.leader_id.node_id
    pub log_index : r.log_index ≡ e.log_id.index
    pub term : r.term ≡ e.log_id.leader_id.term
    pub entry : entry_codec.to_vec e ≡ ok r.entry

  abbrev pub Encodes : List LogRow → List (Entry Membership) → Type 0
  Encodes [] [] = Unit
  Encodes [] (e ∷ es) = ⊥
  Encodes (r ∷ rs) [] = ⊥
  Encodes (r ∷ rs) (e ∷ es) = IsRow r e × Encodes rs es

  pub Encodes-put :
      (r : LogRow) (e : Entry Membership) (rs : List LogRow) (es : List (Entry Membership))
      → IsRow r e
      → Encodes rs es
      → Encodes (put_row r rs) (put_entry e es)
  unfolding put_row put_entry
  Encodes-put r e [] [] h a = (h, tt)
  Encodes-put r e [] (y ∷ es) h a = elim a [ ]
  Encodes-put r e (x ∷ rs) [] h a = elim a [ ]
  Encodes-put r e (x ∷ rs) (y ∷ es) h a = ground (arith, Encodes-put r e rs es h a.1)

  pub Encodes-select :
      (q : ℕ → Bool) (rs : List LogRow) (es : List (Entry Membership))
      → Encodes rs es
      → Encodes (select (λ r. q r.log_index) rs) (where_index q es)
  Encodes-select q [] [] a = tt
  Encodes-select q [] (y ∷ es) a = elim a [ ]
  Encodes-select q (x ∷ rs) [] a = elim a [ ]
  Encodes-select q (x ∷ rs) (y ∷ es) a = ground (arith, Encodes-select q rs es a.1)

  IsRow-log_id : (r : LogRow) (e : Entry Membership) → IsRow r e → row_id r ≡ e.log_id
  IsRow-log_id r e h = ground arith

  pub Encodes-last :
      (rs : List LogRow) (es : List (Entry Membership))
      → Encodes rs es
      → last_row_id rs ≡ last_id es
  Encodes-last [] [] a = refl
  Encodes-last [] (y ∷ es) a = elim a [ ]
  Encodes-last (x ∷ rs) [] a = elim a [ ]
  Encodes-last (x ∷ []) (y ∷ []) a = ground (arith, IsRow-log_id x y a.0)
  Encodes-last (x ∷ []) (y ∷ z ∷ es) a = elim a.1 [ ]
  Encodes-last (x ∷ w ∷ rs) (y ∷ []) a = elim a.1 [ ]
  Encodes-last (x ∷ w ∷ rs) (y ∷ z ∷ es) a = Encodes-last (w ∷ rs) (z ∷ es) a.1

-- ===== src/Handle/FromRow.antt =====
-- src/storage/from_row_impl.rs: `FromRow` of the tuples, which a macro derives. Handle.antt has the
-- tuples that the store reads.
use replicat.Prelude.{ℕ, suc, ◌≡◌, ◌↔◌, refl, sym, ap, ◌∙◌, arith, List, [], ◌∷◌}
use replicat.Exec.{Result, ok, err}
use replicat.Sql.{Value, Row}
use replicat.Env.{Env, SqlError}
use replicat.Handle.{get_column}

-- a type of a component, with its `FromSql`
pub record Field : Type 1 where
  pub Carrier : Type 0
  pub from_sql : Value → Result SqlError Carrier

abbrev pub TupleOf : List Field → Type 0
TupleOf [] = Unit
TupleOf (f ∷ fs) = f.Carrier × TupleOf fs

-- a `?` ends the conversion at the first component that fails
abbrev both : {A B : Type 0} → Result SqlError A → Result SqlError B → Result SqlError (A × B)
both (err e) _ = err e
both (ok a) (err e) = err e
both (ok a) (ok b) = ok (a, b)

both-ok :
    {A B : Type 0} (r : Result SqlError A) (r' : Result SqlError B) (a : A) (b : B)
    → both r r' ≡ ok (a, b)
    → (r ≡ ok a) × (r' ≡ ok b)
both-ok (err e) r' a b h = ground arith
both-ok (ok x) (err e) a b h = ground arith
both-ok (ok x) (ok y) a b h = ground arith

-- The first columns of a row convert to the components of a tuple.
abbrev pub Columns : (fs : List Field) → Row → TupleOf fs → Type 0
Columns [] row t = Unit
Columns (f ∷ fs) [] t = ⊥
Columns (f ∷ fs) (v ∷ row) (a, t) = (f.from_sql v ≡ ok a) × Columns fs row t

module _ (env : Env) where
  -- the components that are left where the cursor has come to
  unfoldable pub from_row_at : (fs : List Field) → ℕ → Row → Result SqlError (TupleOf fs)
  from_row_at [] cursor row = ok tt
  from_row_at (f ∷ fs) cursor row =
      both (get_column env f.from_sql cursor row) (from_row_at fs (suc cursor) row)

  unfoldable pub from_row : (fs : List Field) → Row → Result SqlError (TupleOf fs)
  unfolding from_row_at
  from_row fs row = from_row_at fs 0 row

  from_row_at-next :
      (fs : List Field) (n : ℕ) (v : Value) (row : Row)
      → from_row_at fs (suc n) (v ∷ row) ≡ from_row_at fs n row
  unfolding from_row_at
  from_row_at-next [] n v row = refl
  from_row_at-next (f ∷ fs) n v row =
      ap (both (get_column env f.from_sql n row)) (from_row_at-next fs (suc n) v row)

  reads-Columns :
      (fs : List Field) (row : Row) (t : TupleOf fs)
      → from_row_at fs 0 row ≡ ok t
      → Columns fs row t
  unfolding from_row_at
  reads-Columns [] row t h = tt
  reads-Columns (f ∷ fs) [] t h = ground arith
  reads-Columns (f ∷ fs) (v ∷ row) (a, t) h =
      let (first, rest) = both-ok (f.from_sql v) (from_row_at fs 1 (v ∷ row)) a t h in
      (first, reads-Columns fs row t (sym (from_row_at-next fs 0 v row) ∙ rest))

  Columns-reads :
      (fs : List Field) (row : Row) (t : TupleOf fs)
      → Columns fs row t
      → from_row_at fs 0 row ≡ ok t
  unfolding from_row_at
  Columns-reads [] row t k = refl
  Columns-reads (f ∷ fs) [] t k = absurd k
  Columns-reads (f ∷ fs) (v ∷ row) (a, t) (first, k) =
      ap (λ r. both r (from_row_at fs 1 (v ∷ row))) first
      ∙ ap (both (ok a)) (from_row_at-next fs 0 v row ∙ Columns-reads fs row t k)

  -- `from_row` of a tuple type returns a tuple exactly where the row has as many columns at least, and
  -- the first ones convert, in their order, to the components of the tuple.
  pub from_row-Columns :
      (fs : List Field) (row : Row) (t : TupleOf fs) → (from_row fs row ≡ ok t) ↔ Columns fs row t
  unfolding from_row
  from_row-Columns fs row t = (reads-Columns fs row t, Columns-reads fs row t)

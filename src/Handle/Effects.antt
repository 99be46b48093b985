-- ===== src/Handle/Effects.antt =====
-- What a call on a handle does to the tables of every thread, given that SQLite keeps its promises.
use replicat.Prelude.{refl, ap, Option, inl, inr, ℕ, ◌≡◌, ◌∙◌, arith, some, List, fun_ext}
use replicat.Exec.{Result, ok, err, Result-cases, settled}
use replicat.Sql.{Param, Row, Sql}
use replicat.Sql.Tables.{Tables, meaning}
use replicat.Env.{Env, IsFaithful, SqlError, Shows}
use replicat.Handle.{
  StorageHandle, World, set_at, execute, execute_or, fetch_one, fetch_all, first_row, convert_rows,
}

-- The tables of each thread's connection.
abbrev pub views : {env : Env} → World env → ℕ → Tables
views {env} w i = env.tables (w.conns i)

pub set_at_self {ℓ} : {A : Type ℓ} (f : ℕ → A) (i : ℕ) → set_at f i (f i) ≡ f
set_at_self f i = fun_ext λ j. ground arith

pub set_at_lem {ℓ} : {A : Type ℓ} (f : ℕ → A) (i : ℕ) (a : A) → set_at f i a i ≡ a
set_at_lem f i a = ground arith

settled-at {ℓ} :
    {E B : Type 0} {A : Type ℓ} (r : Result E B) (f : ℕ → A) (i : ℕ) (a : A)
    → settled r (set_at f i a) f i ≡ settled r a (f i)
settled-at (ok _) f i a = set_at_lem f i a
settled-at (err _) f i a = refl

module _ (env : Env) where
  -- a new connection on one thread
  views-set_at :
      (w : World env) (i : ℕ) (c : env.Conn) (t : Tables)
      → env.tables c ≡ t
      → ◌≡◌ {A = ℕ → Tables} (λ j. env.tables (set_at w.conns i c j)) (set_at (views w) i t)
  views-set_at w i c t e = fun_ext λ j. ground arith

  -- a statement runs on the connection of its thread
  pub execute_or-conn :
      {E : Type 0} (fail : E) (h : StorageHandle) (s : Sql) (ps : List Param) (w : World env)
      → views (execute_or env fail h s ps w).1 h.tx
        ≡ env.tables (env.run_execute (w.conns h.tx) s ps).1
  unfolding execute_or execute
  execute_or-conn fail h s ps w = ground arith

  module _ (law : IsFaithful env) (h : StorageHandle) (s : Sql) (ps : List Param)
      (w : World env) where
    pub execute-views :
        (t : Tables) (rows : List Row) (n : ℕ)
        → meaning s ps (views w h.tx) ≡ some (t, rows)
        → (execute env h s ps w).0 ≡ ok n
        → views (execute env h s ps w).1 ≡ set_at (views w) h.tx t
    unfolding execute
    execute-views t rows n m e =
        views-set_at w h.tx _ t (law.execute_ok (w.conns h.tx) s ps t rows n m e)

    pub execute-views_err :
        (e : SqlError) → (execute env h s ps w).0 ≡ err e → views (execute env h s ps w).1 ≡ views w
    unfolding execute
    execute-views_err e f =
        views-set_at w h.tx _ _ (law.execute_err (w.conns h.tx) s ps e f)
        ∙ set_at_self (views w) h.tx

    -- the tables of every thread, and of the thread itself, however the call ends
    pub execute_or-views :
        {E : Type 0} (fail : E) (t : Tables) (rows : List Row)
        → meaning s ps (views w h.tx) ≡ some (t, rows)
        → let (r, w') = execute_or env fail h s ps w in
          views w' ≡ settled r (set_at (views w) h.tx t) (views w)
    unfolding execute_or
    execute_or-views fail t rows m = elim (Result-cases (execute env h s ps w).0) [
      | inl (n, e) ↦ ground (arith, execute-views t rows n m e)
      | inr (x, e) ↦ ground (arith, execute-views_err x e)
    ]

    pub execute_or-at :
        {E : Type 0} (fail : E) (t : Tables) (rows : List Row)
        → meaning s ps (views w h.tx) ≡ some (t, rows)
        → let (r, w') = execute_or env fail h s ps w in views w' h.tx ≡ settled r t (views w h.tx)
    execute_or-at fail t rows m =
        ap (λ v. v h.tx) (execute_or-views fail t rows m)
        ∙ settled-at (execute_or env fail h s ps w).0 (views w) h.tx t

    -- a query that changes no row leaves the tables alone, however it ends
    query-tables :
        (want : List Row)
        → meaning s ps (views w h.tx) ≡ some (views w h.tx, want)
        → env.tables (env.run_query (w.conns h.tx) s ps).1 ≡ views w h.tx
    query-tables want m = elim (Result-cases (env.run_query (w.conns h.tx) s ps).0) [
      | inl (got, e) ↦ (law.query_ok (w.conns h.tx) s ps _ want got m e).0
      | inr (x, e) ↦ law.query_err (w.conns h.tx) s ps x e
    ]

    module _ {A : Type 0} (from_row : Row → Result SqlError A) where
      pub fetch_one-views :
          (want : List Row)
          → meaning s ps (views w h.tx) ≡ some (views w h.tx, want)
          → views (fetch_one env h from_row s ps w).1 ≡ views w
      unfolding fetch_one
      fetch_one-views want m =
          views-set_at w h.tx _ _ (query-tables want m) ∙ set_at_self (views w) h.tx

      pub fetch_all-views :
          (want : List Row)
          → meaning s ps (views w h.tx) ≡ some (views w h.tx, want)
          → views (fetch_all env h from_row s ps w).1 ≡ views w
      unfolding fetch_all
      fetch_all-views want m =
          views-set_at w h.tx _ _ (query-tables want m) ∙ set_at_self (views w) h.tx

      -- the rows behind a result
      pub fetch_one-rows :
          (t : Tables) (want : List Row) (r : Option A)
          → meaning s ps (views w h.tx) ≡ some (t, want)
          → (fetch_one env h from_row s ps w).0 ≡ ok r
          → (got : List Row) × Shows s got want
            × (first_row env from_row (ok got) ≡ ok r)
            × (views (fetch_one env h from_row s ps w).1 ≡ set_at (views w) h.tx t)
      unfolding fetch_one
      fetch_one-rows t want r m e = elim (Result-cases (env.run_query (w.conns h.tx) s ps).0) [
        | inl (got, g) ↦
            let shown = law.query_ok (w.conns h.tx) s ps t want got m g in
            (got, shown.1, rw g at e, views-set_at w h.tx _ t shown.0)
        | inr (x, g) ↦ cc (rw g at e)
      ]

      pub fetch_all-rows :
          (t : Tables) (want : List Row) (r : List A)
          → meaning s ps (views w h.tx) ≡ some (t, want)
          → (fetch_all env h from_row s ps w).0 ≡ ok r
          → (got : List Row) × Shows s got want × (convert_rows env from_row got ≡ ok r)
      unfolding fetch_all
      fetch_all-rows t want r m e = elim (Result-cases (env.run_query (w.conns h.tx) s ps).0) [
        | inl (got, g) ↦ (got, (law.query_ok (w.conns h.tx) s ps t want got m g).1, rw g at e)
        | inr (x, g) ↦ cc (rw g at e)
      ]

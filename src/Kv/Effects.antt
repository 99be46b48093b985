-- ===== src/Kv/Effects.antt =====
-- What `kv_put` and `kv_get` do, given that SQLite and the serializer keep their promises.
use replicat.Prelude.{ℕ, String, ◌≡◌, refl, inl, inr, arith, Option, none, some, [], ◌∷◌}
use replicat.Exec.{Result, ok, err, Result-cases, settled}
use replicat.Sql.{Bytes, Value, blob, key, bytes, kv_select_value, kv_upsert}
use replicat.Sql.Tables.{Tables, meaning, update, rows_of}
use replicat.Env.{Env, IsFaithful, IsRoundTrip, Codec, SqlError}
use replicat.Handle.{StorageHandle, World, set_at, execute_or, fetch_one, first_row, from_row_bytes}
use replicat.Handle.Effects.{views, execute_or-views, set_at_lem, fetch_one-views, fetch_one-rows}
use replicat.Kv.{kv_put, kv_get}

-- The tables of every thread after one value is stored at a thread.
abbrev pub stored : (ℕ → Tables) → ℕ → String → Bytes → ℕ → Tables
stored v i k b = set_at v i (record (v i) { kv = update (v i).kv k (some (blob b)) })

-- A cell holds a value in the encoding of `codec`, or is empty.
abbrev pub Keeps : {A : Type 0} → Codec A → Option Value → Option A → Type 0
Keeps codec cell none = cell ≡ none
Keeps codec cell (some a) = (b : Bytes) × (codec.to_vec a ≡ ok b) × (cell ≡ some (blob b))

-- One table with a value stored.
abbrev pub with_value : Tables → String → Bytes → Tables
with_value t k b = record t { kv = update t.kv k (some (blob b)) }

pub stored-at :
    (v : ℕ → Tables) (i : ℕ) (k : String) (b : Bytes) → stored v i k b i ≡ with_value (v i) k b
stored-at v i k b = set_at_lem v i (with_value (v i) k b)

module _ (env : Env) (law : IsFaithful env) {E A : Type 0} (codec : Codec A) (fail : E)
    (h : StorageHandle) (k : String) (w : World env) where
  abbrev upsert : Bytes → Result E Unit × World env
  upsert b = execute_or env fail h kv_upsert (key k ∷ bytes b ∷ []) w

  upsert-views :
      (b : Bytes) → views (upsert b).1 ≡ settled (upsert b).0 (stored (views w) h.tx k b) (views w)
  unfolding meaning
  upsert-views b = execute_or-views env law h kv_upsert (key k ∷ bytes b ∷ []) w fail _ [] refl

  -- a write that succeeds stores the bytes of the value under the key, and changes nothing else
  pub kv_put-views :
      (a : A)
      → (kv_put env codec fail h k a w).0 ≡ ok tt
      → (b : Bytes) × (codec.to_vec a ≡ ok b)
        × (views (kv_put env codec fail h k a w).1 ≡ stored (views w) h.tx k b)
  unfolding kv_put
  kv_put-views a e = elim (Result-cases (codec.to_vec a)) [
    | inr (x, g) ↦ ground arith
    | inl (b, g) ↦ (b, g, ground (arith, upsert-views b))
  ]

  pub kv_put-views_err :
      (a : A) (x : E)
      → (kv_put env codec fail h k a w).0 ≡ err x
      → views (kv_put env codec fail h k a w).1 ≡ views w
  unfolding kv_put
  kv_put-views_err a x e = elim (Result-cases (codec.to_vec a)) [
    | inr (x, g) ↦ ground arith
    | inl (b, g) ↦ ground (arith, upsert-views b)
  ]

  -- a read changes nothing
  pub kv_get-views : views (kv_get env codec fail h k w).1 ≡ views w
  unfolding kv_get meaning
  kv_get-views =
      ground (
        arith,
        fetch_one-views env law h kv_select_value (key k ∷ []) w (from_row_bytes env) _ refl,
      )

  abbrev select : Result SqlError (Option Bytes) × World env
  select = fetch_one env h (from_row_bytes env) kv_select_value (key k ∷ []) w

  select-row :
      (raw : Option Bytes)
      → select.0 ≡ ok raw
      → first_row env (from_row_bytes env) (ok (rows_of (λ v. v ∷ []) ((views w h.tx).kv k)))
        ≡ ok raw
  unfolding meaning
  select-row raw e =
      let (got, shown, first, _) =
        fetch_one-rows env law h kv_select_value (key k ∷ []) w (from_row_bytes env) _ _ raw refl
          e in
      rw (← shown) first

  pub kv_get-empty :
      (r : Option A)
      → (views w h.tx).kv k ≡ none
      → (kv_get env codec fail h k w).0 ≡ ok r
      → r ≡ none
  unfolding kv_get meaning
  kv_get-empty r c e = elim (Result-cases select.0) [
    | inl (raw, f) ↦ ground (arith, select-row raw f)
    | inr (x, f) ↦ ground arith
  ]

  pub kv_get-full :
      (b : Bytes) (a : A) (r : Option A)
      → (views w h.tx).kv k ≡ some (blob b)
      → codec.from_slice b ≡ ok a
      → (kv_get env codec fail h k w).0 ≡ ok r
      → r ≡ some a
  unfolding kv_get meaning
  kv_get-full b a r c d e = elim (Result-cases select.0) [
    | inl (raw, f) ↦ ground (arith, select-row raw f, law.bytes_ok b)
    | inr (x, f) ↦ ground arith
  ]

  -- what a cell holds is what is read, whatever was done with the rest of the database
  pub kv_get-Keeps :
      IsRoundTrip codec
      → (held r : Option A) → Keeps codec ((views w h.tx).kv k) held
      → (kv_get env codec fail h k w).0 ≡ ok r
      → r ≡ held
  kv_get-Keeps round none r c e = kv_get-empty r c e
  kv_get-Keeps round (some a) r (b, enc, c) e = kv_get-full b a r c (round.decode a b enc) e

-- ===== src/Handle/Memory/Calls.antt =====
-- The calls on `SqliteMemory` of src/storage/mod.rs where they meet live memory.
use replicat.Prelude.{
  ℕ, ◌≤◌, ◌≡◌, refl, ap, ◌∙◌, arith, ◌⊎◌, inl, inr, true, false, Bool-cases, ◌==◌, leb, ◌||◌,
  length,
}
use replicat.Prelude.Int.{pos}
use replicat.Exec.{Result, ok, err, Exec, pure, ◌>>◌, >>=-ok}
use replicat.Sql.{Bytes}
use replicat.Env.{SqlError}
use replicat.Handle.{no_memory}
use replicat.Handle.Memory.Heap.{SqliteHeap}
use replicat.Handle.Memory.{
  SqliteMemory, Fault, from_slice, serialize_db, is_minus_one, access, owns, free,
}

module _ (sqlite : SqliteHeap) where
  open sqlite use {Heap, live, size}

  pub access-ok :
      {A : Type 0} (p n : ℕ) (f : Exec Heap Fault A) (h : Heap)
      → live h p ≡ true
      → n ≤ size h p
      → access sqlite p n f h ≡ f h
  access-ok p n f h l k =
      let fits : leb n (size h p) ≡ true = ground (arith, k) in rw (l, fits) refl

  pub owns-ok :
      (p n : ℕ) (h : Heap)
      → (p == 0) ≡ false
      → owns sqlite p n h ≡ (ok (ok (record { ptr = p; size = n })), h)
  unfolding owns
  owns-ok p n h e = rw e refl

  pub free-ok :
      (p : ℕ) (h : Heap)
      → (p ≡ 0) ⊎ (live h p ≡ true)
      → free sqlite p h ≡ (ok tt, sqlite.sqlite3_free p h)
  free-ok p h (inl e) = let null : (p == 0) ≡ true = ground (arith, e) in rw null refl
  free-ok p h (inr l) = elim (Bool-cases (p == 0)) [ inl e ↦ rw e refl | inr e ↦ rw (e, l) refl ]

  pub from_slice-ok :
      (buf : Bytes) (h : Heap)
      → let (p, h1) = sqlite.sqlite3_malloc64 (length buf) h in
        (p == 0) ≡ false
        → live h1 p ≡ true
        → length buf ≤ size h1 p
        → from_slice sqlite buf h
          ≡ (ok (ok (record { ptr = p; size = length buf })), sqlite.store p buf h1)
  unfolding from_slice
  from_slice-ok buf h e l k =
      let (p, h1) = sqlite.sqlite3_malloc64 (length buf) h in
      let stores : Exec Heap Fault Unit = λ h. (ok tt, sqlite.store p buf h) in
      let a = access-ok p (length buf) stores h1 l k in
      let s1 : from_slice sqlite buf h
          ≡ (access sqlite p (length buf) stores >> owns sqlite p (length buf)) h1 =
        rw e refl in
      s1
      ∙ >>=-ok (access sqlite p (length buf) stores) (λ _. owns sqlite p (length buf)) h1 tt
          (ap (λ z. z.0) a)
      ∙ ap (λ z. owns sqlite p (length buf) z.1) a
      ∙ owns-ok p (length buf) (sqlite.store p buf h1) e

  pub serialize_db-none :
      (c : ℕ) (h : Heap)
      → let (p, n, h1) = sqlite.sqlite3_serialize c h in
        ((p == 0) || is_minus_one n) ≡ true
        → (p ≡ 0) ⊎ (live h1 p ≡ true)
        → serialize_db sqlite c h ≡ (ok (err no_memory), sqlite.sqlite3_free p h1)
  unfolding serialize_db
  serialize_db-none c h e ready =
      let (p, n, h1) = sqlite.sqlite3_serialize c h in
      let done : Exec Heap Fault (Result SqlError SqliteMemory) = pure (err no_memory) in
      let f = free-ok p h1 ready in
      let s1 : serialize_db sqlite c h ≡ (free sqlite p >> done) h1 = rw e refl in
      s1 ∙ >>=-ok (free sqlite p) (λ _. done) h1 tt (ap (λ z. z.0) f) ∙ ap (λ z. done z.1) f

  pub serialize_db-some :
      (c k : ℕ) (h : Heap)
      → let (p, n, h1) = sqlite.sqlite3_serialize c h in
        (p == 0) ≡ false
        → n ≡ pos k
        → serialize_db sqlite c h ≡ (ok (ok (record { ptr = p; size = k })), h1)
  unfolding serialize_db
  serialize_db-some c k h e n = let (p, _, h1) = sqlite.sqlite3_serialize c h in rw (e, n) refl

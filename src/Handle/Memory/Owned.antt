-- ===== src/Handle/Memory/Owned.antt =====
-- Who owns the memory that src/storage/mod.rs takes from SQLite.
use replicat.Prelude.{
  ℕ, zero, suc, ◌+◌, ◌≤◌, ◌≡◌, arith, inl, inr, Option-cases, ◌==◌, some, List, [], ◌∷◌,
}
use replicat.Handle.Memory.Heap.{SqliteHeap, one}
use replicat.Handle.Memory.{SqliteMemory, Program, take_out}

-- how many of the values have the pointer
abbrev pub holders : ℕ → List SqliteMemory → ℕ
holders q [] = 0
holders q (m ∷ ms) = one (q == m.ptr) + holders q ms

pub take_out-holders :
    (i : ℕ) (ms : List SqliteMemory) (m : SqliteMemory) (rest : List SqliteMemory) (q : ℕ)
    → take_out i ms ≡ some (m, rest)
    → holders q ms ≡ one (q == m.ptr) + holders q rest
take_out-holders i [] m rest q e = ground arith
take_out-holders zero (x ∷ xs) m rest q e = ground arith
take_out-holders (suc i) (x ∷ xs) m rest q e = elim (Option-cases (take_out i xs)) [
  | inl o ↦ ground arith
  | inr ((y, ys), o) ↦ ground (arith, take_out-holders i xs y ys q o)
]

module _ (sqlite : SqliteHeap) where
  open sqlite use {Heap, live, size, held}

  -- Each value's bytes lie in its allocation.
  abbrev pub Sized : Heap → List SqliteMemory → Type 0
  Sized h [] = Unit
  Sized h (m ∷ ms) = (m.size ≤ size h m.ptr) × Sized h ms

  -- An allocation that was not freed has one owner, a value or a connection; what was freed, and the
  -- null pointer, has none.
  pub record IsOwned (p : Program sqlite) : Type 0 where
    pub owner : (q : ℕ) → holders q p.values + held p.heap q ≡ one (live p.heap q)
    pub sized : Sized p.heap p.values

  pub take_out-Sized :
      (h : Heap) (i : ℕ) (ms : List SqliteMemory) (m : SqliteMemory) (rest : List SqliteMemory)
      → take_out i ms ≡ some (m, rest)
      → Sized h ms
      → (m.size ≤ size h m.ptr) × Sized h rest
  take_out-Sized h i [] m rest e s = ground arith
  take_out-Sized h zero (x ∷ xs) m rest e s = ground arith
  take_out-Sized h (suc i) (x ∷ xs) m rest e s = elim (Option-cases (take_out i xs)) [
    | inl o ↦ ground arith
    | inr ((y, ys), o) ↦ let (a, b) = take_out-Sized h i xs y ys o s.1 in ground (arith, a, b)
  ]

  pub Sized-kept :
      (h h' : Heap) (ms : List SqliteMemory)
      → ((q : ℕ) → 1 ≤ holders q ms → size h' q ≡ size h q)
      → Sized h ms
      → Sized h' ms
  Sized-kept h h' [] same s = tt
  Sized-kept h h' (m ∷ ms) same (le, s) = (
    omega (arith, le, same m.ptr (ground arith)),
    Sized-kept h h' ms (λ q k. same q (omega (arith, k))) s,
  )

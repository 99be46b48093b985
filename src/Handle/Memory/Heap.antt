-- ===== src/Handle/Memory/Heap.antt =====
-- The allocator of SQLite, and its connections as owners of memory.
use replicat.Prelude.{ℕ, zero, ◌+◌, ◌≡◌, ◌≢◌, ◌⊎◌, Bool, true, false, ◌==◌, if◌then◌else◌, length}
use replicat.Prelude.Int.{ℤ, pos, negsuc}
use replicat.Sql.{Bytes}

-- The allocator and the connections of SQLite; 0 is the null pointer. `held` counts how often a
-- pointer is among the buffers that the connections are to free.
pub record SqliteHeap : Type 1 where
  pub Heap : Type 0
  pub live : Heap → ℕ → Bool
  pub size : Heap → ℕ → ℕ
  pub held : Heap → ℕ → ℕ
  pub load : Heap → ℕ → ℕ → Bytes
  pub store : ℕ → Bytes → Heap → Heap
  pub sqlite3_malloc64 : ℕ → Heap → ℕ × Heap
  pub sqlite3_free : ℕ → Heap → Heap
  pub sqlite3_serialize : ℕ → Heap → ℕ × ℤ × Heap
  pub sqlite3_deserialize : ℕ → ℕ → ℕ → Heap → ℕ × Heap
  pub close : ℕ → Heap → Heap

abbrev pub one : Bool → ℕ
one b = if b then 1 else 0

-- what a pointer that is returned adds to the count of another
abbrev pub given : ℕ → ℕ → ℕ
given p q = if p == 0 then 0 else one (q == p)

module _ (sqlite : SqliteHeap) where
  open sqlite use {
    Heap, live, size, held, load, store, sqlite3_malloc64, sqlite3_free, sqlite3_serialize,
    sqlite3_deserialize, close,
  }

  -- What SQLite documents: an allocation is fresh or null; a free ends one; the buffer of
  -- `sqlite3_deserialize` is the connection's from then on, also where the call fails, and a
  -- connection frees its own buffers only.
  pub record IsSqliteHeap : Type 0 where
    pub null_lem : (h : Heap) → live h 0 ≡ false
    pub malloc_live :
        (n : ℕ) (h : Heap) (q : ℕ)
        → let (p, h') = sqlite3_malloc64 n h in one (live h' q) ≡ given p q + one (live h q)
    pub malloc_held : (n : ℕ) (h : Heap) (q : ℕ) → held (sqlite3_malloc64 n h).1 q ≡ held h q
    pub malloc_new :
        (n : ℕ) (h : Heap) → let (p, h') = sqlite3_malloc64 n h in p ≢ 0 → size h' p ≡ n
    pub malloc_size :
        (n : ℕ) (h : Heap) (q : ℕ) → live h q ≡ true → size (sqlite3_malloc64 n h).1 q ≡ size h q
    pub store_live : (p : ℕ) (b : Bytes) (h : Heap) (q : ℕ) → live (store p b h) q ≡ live h q
    pub store_held : (p : ℕ) (b : Bytes) (h : Heap) (q : ℕ) → held (store p b h) q ≡ held h q
    pub store_size : (p : ℕ) (b : Bytes) (h : Heap) (q : ℕ) → size (store p b h) q ≡ size h q
    pub store_load : (p : ℕ) (b : Bytes) (h : Heap) → load (store p b h) p (length b) ≡ b
    pub free_live :
        (p : ℕ) (h : Heap) (q : ℕ)
        → (p ≡ 0) ⊎ (live h p ≡ true)
        → one (live h q) ≡ given p q + one (live (sqlite3_free p h) q)
    pub free_held : (p : ℕ) (h : Heap) (q : ℕ) → held h p ≡ 0 → held (sqlite3_free p h) q ≡ held h q
    pub free_size :
        (p : ℕ) (h : Heap) (q : ℕ)
        → live (sqlite3_free p h) q ≡ true
        → size (sqlite3_free p h) q ≡ size h q
    pub serialize_live :
        (c : ℕ) (h : Heap) (q : ℕ)
        → let (p, n, h') = sqlite3_serialize c h in one (live h' q) ≡ given p q + one (live h q)
    pub serialize_held :
        (c : ℕ) (h : Heap) (q : ℕ) → let (p, n, h') = sqlite3_serialize c h in held h' q ≡ held h q
    pub serialize_new :
        (c : ℕ) (h : Heap)
        → let (p, n, h') = sqlite3_serialize c h in
          (p ≡ 0) ⊎ ((n ≡ negsuc zero) ⊎ (n ≡ pos (size h' p)))
    pub serialize_size :
        (c : ℕ) (h : Heap) (q : ℕ)
        → live h q ≡ true
        → let (p, n, h') = sqlite3_serialize c h in size h' q ≡ size h q
    pub deserialize_live :
        (c p n : ℕ) (h : Heap) (q : ℕ)
        → live h p ≡ true
        → held h p ≡ 0
        → let (status, h') = sqlite3_deserialize c p n h in
          one (live h q) + held h' q ≡ one (live h' q) + (held h q + one (q == p))
    pub deserialize_size :
        (c p n : ℕ) (h : Heap) (q : ℕ)
        → live h q ≡ true
        → held h q ≡ 0
        → q ≢ p
        → let (status, h') = sqlite3_deserialize c p n h in size h' q ≡ size h q
    pub close_live :
        (c : ℕ) (h : Heap) (q : ℕ)
        → one (live h q) + held (close c h) q ≡ one (live (close c h) q) + held h q
    pub close_size :
        (c : ℕ) (h : Heap) (q : ℕ) → live h q ≡ true → held h q ≡ 0 → size (close c h) q ≡ size h q

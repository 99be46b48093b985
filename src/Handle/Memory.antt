-- ===== src/Handle/Memory.antt =====
-- src/storage/mod.rs: `SqliteMemory` and the functions that make, hand over and free one, on a heap
-- with pointers. Handle.antt has the same functions on the bytes alone.
pub mod Heap
pub mod Owned
pub mod Calls
pub mod Create
pub mod Safety
use replicat.Prelude.{
  ℕ, zero, suc, ◌+◌, ◌≤◌, ◌≡◌, ◌==◌, leb, ◌||◌, if◌then◌else◌, Bool, true, false, ◌⊎◌, Option, none,
  some, List, [], ◌∷◌, length,
}
use replicat.Prelude.Int.{ℤ, pos, negsuc, as_u64}
use replicat.Exec.{Result, ok, err, Exec, pure, map_ok, ◌>>◌, ◌>>=◌}
use replicat.Sql.{Bytes}
use replicat.Env.{SqlError}
use replicat.Handle.Memory.Heap.{SqliteHeap}
use replicat.Handle.{no_memory, status_result}

pub record SqliteMemory : Type 0 where
  pub ptr : ℕ
  pub size : ℕ

-- what undefined behaviour, or a panic, is
pub data Fault : Type 0 where
  double_free use_after_free out_of_bounds null_pointer : Fault

abbrev pub is_minus_one : ℤ → Bool
is_minus_one (negsuc zero) = true
is_minus_one _ = false

-- A program's use of the memory; a value is known by its place.
pub data Action : Type 0 where
  creates : Bytes → Action
  serializes : ℕ → Action
  reads : ℕ → Action
  drops : ℕ → Action
  deserializes : ℕ → ℕ → Action
  closes : ℕ → Action

-- the value at a place, and the others
abbrev pub take_out {ℓ} : {A : Type ℓ} → ℕ → List A → Option (A × List A)
take_out i [] = none
take_out zero (x ∷ xs) = some (x, xs)
take_out (suc i) (x ∷ xs) = elim (take_out i xs) [ none ↦ none | some (y, ys) ↦ some (y, x ∷ ys) ]

module _ (sqlite : SqliteHeap) where
  open sqlite use {
    Heap, live, load, store, sqlite3_malloc64, sqlite3_free, sqlite3_serialize, sqlite3_deserialize,
  }

  abbrev Memory : Type 0 → Type 0
  Memory A = Exec Heap Fault A

  -- `sqlite3_free`, to which the null pointer is no harm
  abbrev pub free : ℕ → Memory Unit
  free p h =
      if p == 0
      then (ok tt, sqlite3_free p h)
      else if live h p
      then (ok tt, sqlite3_free p h)
      else (err double_free, h)

  -- an access to so many bytes at a pointer
  abbrev pub access : {A : Type 0} → ℕ → ℕ → Memory A → Memory A
  access p n use_bytes h =
      if live h p
      then if leb n (sqlite.size h p) then use_bytes h else (err out_of_bounds, h)
      else (err use_after_free, h)

  unfoldable pub from_raw : ℕ → ℕ → Result Fault SqliteMemory
  from_raw ptr size = if ptr == 0 then err null_pointer else ok (record { ptr = ptr; size = size })

  abbrev pub owns : ℕ → ℕ → Memory (Result SqlError SqliteMemory)
  unfolding from_raw
  owns ptr size h = (map_ok ok (from_raw ptr size), h)

  unfoldable pub from_slice : Bytes → Memory (Result SqlError SqliteMemory)
  unfolding from_raw
  from_slice buf h =
      let (ptr, h1) = sqlite3_malloc64 (length buf) h in
      if ptr == 0
      then (ok (err no_memory), h1)
      else (access ptr (length buf) (λ h. (ok tt, store ptr buf h)) >> owns ptr (length buf)) h1

  unfoldable pub deref : SqliteMemory → Memory Bytes
  deref mem = access mem.ptr mem.size λ h. (ok (load h mem.ptr mem.size), h)

  unfoldable pub drop_memory : SqliteMemory → Memory Unit
  drop_memory mem = free mem.ptr

  unfoldable pub serialize_db : ℕ → Memory (Result SqlError SqliteMemory)
  unfolding from_raw
  serialize_db conn h =
      let (ptr, size, h1) = sqlite3_serialize conn h in
      if (ptr == 0) || is_minus_one size
      then (free ptr >> pure (err no_memory)) h1
      else owns ptr (as_u64 size) h1

  -- `ManuallyDrop`: the value is not dropped here, however the call ends
  unfoldable pub deserialize_db : ℕ → SqliteMemory → Memory (Result SqlError Unit)
  deserialize_db conn mem = access mem.ptr mem.size λ h.
      let (status, h') = sqlite3_deserialize conn mem.ptr mem.size h in
      (ok (status_result status), h')

  -- the values that a program has, and the heap
  pub record Program : Type 0 where
    pub values : List SqliteMemory
    pub heap : Heap

  -- what a call left; a new value comes first
  abbrev pub keep_made :
      List SqliteMemory → Result Fault (Result SqlError SqliteMemory) × Heap → Result Fault Program
  keep_made ms (err f, h) = err f
  keep_made ms (ok (err e), h) = ok (record { values = ms; heap = h })
  keep_made ms (ok (ok m), h) = ok (record { values = m ∷ ms; heap = h })

  abbrev pub keep : {A : Type 0} → List SqliteMemory → Result Fault A × Heap → Result Fault Program
  keep ms (err f, h) = err f
  keep ms (ok _, h) = ok (record { values = ms; heap = h })

  -- Rust has no way to name a value that was moved or dropped, so such an action is none.
  abbrev pub on_taken :
      Option (SqliteMemory × List SqliteMemory)
      → Program
      → (SqliteMemory → List SqliteMemory → Result Fault Program)
      → Result Fault Program
  on_taken none p f = ok p
  on_taken (some (m, rest)) p f = f m rest

  unfoldable pub act : Action → Program → Result Fault Program
  act (creates buf) p = keep_made p.values (from_slice buf p.heap)
  act (serializes conn) p = keep_made p.values (serialize_db conn p.heap)
  act (reads i) p = on_taken (take_out i p.values) p λ m rest. keep p.values (deref m p.heap)
  act (drops i) p = on_taken (take_out i p.values) p λ m rest. keep rest (drop_memory m p.heap)
  act (deserializes conn i) p =
      on_taken (take_out i p.values) p λ m rest. keep rest (deserialize_db conn m p.heap)
  act (closes conn) p = ok (record p { heap = sqlite.close conn p.heap })

  unfoldable pub run : List Action → Program → Result Fault Program
  unfolding act
  run [] p = ok p
  run (a ∷ rest) p = elim (act a p) [ err f ↦ err f | ok p' ↦ run rest p' ]

-- ===== src/Tests/Memory.antt =====
-- The memory of SQLite, on a heap with one connection that hands out one address after the other.
use replicat.Prelude.{
  ℕ, suc, ◌≡◌, refl, arith, Bool, true, false, ◌&&◌, ◌||◌, ltb, leb, ◌==◌, if◌then◌else◌, List, [],
  ◌∷◌,
}
use replicat.Prelude.Int.{pos}
use replicat.Exec.{ok}
use replicat.Sql.{Bytes}
use replicat.Handle.{set_at}
use replicat.Handle.Memory.Heap.{SqliteHeap, IsSqliteHeap, given}
use replicat.Handle.Memory.{
  SqliteMemory, Program, Action, creates, serializes, reads, drops, deserializes, closes,
  from_slice, deref, from_raw, run,
}
use replicat.Handle.Memory.Owned.{IsOwned}
use replicat.Handle.Memory.Create.{from_slice-deref}
use replicat.Handle.Memory.Safety.{run-IsOwned}

record Heap : Type 0 where
  last : ℕ
  used : ℕ → Bool
  sizes : ℕ → ℕ
  contents : ℕ → Bytes
  buffer : ℕ

abbrev live : Heap → ℕ → Bool
live h q = ltb 0 q && h.used q

abbrev held : Heap → ℕ → ℕ
held h q = if live h q then given h.buffer q else 0

abbrev allocate : ℕ → Heap → ℕ × Heap
allocate n h = if h.used (suc h.last) || (suc h.last == h.buffer) then (0, h) else (
  suc h.last,
  record h {
    last = suc h.last;
    used = set_at h.used (suc h.last) true;
    sizes = set_at h.sizes (suc h.last) n;
  },
)

abbrev release : ℕ → Heap → Heap
release p h = record h { used = set_at h.used p false }

-- A buffer of more than 100 bytes is refused.
abbrev adopt : ℕ → ℕ → Heap → ℕ × Heap
adopt p n h =
    if leb n 100 then (0, record (release h.buffer h) { buffer = p }) else (1, release p h)

abbrev sqlite : SqliteHeap
sqlite = record {
  Heap = Heap;
  live = live;
  size = λ h q. h.sizes q;
  held = held;
  load = λ h p n. h.contents p;
  store = λ p b h. record h { contents = set_at h.contents p b };
  sqlite3_malloc64 = allocate;
  sqlite3_free = release;
  sqlite3_serialize = λ c h. let (p, h') = allocate 4 h in (p, pos 4, h');
  sqlite3_deserialize = λ c p n h. adopt p n h;
  close = λ c h. record (release h.buffer h) { buffer = 0 };
}

sqlite-IsSqliteHeap : IsSqliteHeap sqlite
sqlite-IsSqliteHeap = record {
  null_lem = λ h. refl;
  malloc_live = λ n h q. ground arith;
  malloc_held = λ n h q. ground arith;
  malloc_new = λ n h e. ground arith;
  malloc_size = λ n h q l. ground arith;
  store_live = λ p b h q. refl;
  store_held = λ p b h q. refl;
  store_size = λ p b h q. refl;
  store_load = λ p b h. ground arith;
  free_live = λ p h q e. ground arith;
  free_held = λ p h q z. ground arith;
  free_size = λ p h q l. refl;
  serialize_live = λ c h q. ground arith;
  serialize_held = λ c h q. ground arith;
  serialize_new = λ c h. ground arith;
  serialize_size = λ c h q l. ground arith;
  deserialize_live = λ c p n h q l z. ground arith;
  deserialize_size = λ c p n h q l z e. ground arith;
  close_live = λ c h q. ground arith;
  close_size = λ c h q l z. ground arith;
}

abbrev start : Program sqlite
start = record {
  values = [];
  heap = record { last = 0; used = λ q. false; sizes = λ q. 0; contents = λ q. []; buffer = 0 };
}

start-IsOwned : IsOwned sqlite start
start-IsOwned = record { owner = λ q. ground arith; sized = tt }

-- A value is made and handed over, a second is made of the connection's data and replaces it, and a
-- third is read and dropped.
abbrev actions : List Action
actions =
    creates (5 ∷ 6 ∷ [])
    ∷ deserializes 0 0
    ∷ serializes 0
    ∷ creates (7 ∷ [])
    ∷ reads 0
    ∷ drops 0
    ∷ deserializes 0 0
    ∷ closes 0
    ∷ []

run-IsOwned_example : (p' : Program sqlite) × (run sqlite actions start ≡ ok p') × IsOwned sqlite p'
run-IsOwned_example = run-IsOwned sqlite sqlite-IsSqliteHeap actions start start-IsOwned

two_made :
    (m : SqliteMemory) × (h : Heap) × (from_slice sqlite (5 ∷ 6 ∷ []) start.heap ≡ (ok (ok m), h))
unfolding from_slice from_raw
two_made = (record { ptr = 1; size = 2 }, _, refl)

from_slice-deref_example : deref sqlite two_made.0 two_made.1 ≡ (ok (5 ∷ 6 ∷ []), two_made.1)
from_slice-deref_example =
    from_slice-deref sqlite sqlite-IsSqliteHeap (5 ∷ 6 ∷ []) start.heap two_made.1 two_made.0
      two_made.2

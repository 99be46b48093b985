-- ===== src/Handle/Memory/Create.antt =====
-- Where a `SqliteMemory` of src/storage/mod.rs is made.
use replicat.Prelude.{
  ℕ, ◌≤◌, ◌≡◌, refl, ap, ◌∙◌, arith, ◌⊎◌, inl, inr, true, false, Bool-cases, ◌==◌, ◌||◌, ◌∷◌,
  length,
}
use replicat.Exec.{Result, ok}
use replicat.Sql.{Bytes}
use replicat.Handle.Memory.Heap.{SqliteHeap, IsSqliteHeap, one}
use replicat.Handle.Memory.{
  SqliteMemory, Fault, Program, creates, serializes, from_raw, from_slice, deref, serialize_db, act,
  is_minus_one, keep_made,
}
use replicat.Handle.Memory.Owned.{holders, IsOwned, Sized-kept}
use replicat.Handle.Memory.Calls.{access-ok, from_slice-ok, serialize_db-none, serialize_db-some}

module _ (sqlite : SqliteHeap) where
  open sqlite use {Heap, live, size, held}

  module _ (law : IsSqliteHeap sqlite) where
    -- what an action did: no fault, and every allocation still has one owner
    abbrev pub Safe : Result Fault (Program sqlite) → Type 0
    Safe r = (p : Program sqlite) × (r ≡ ok p) × IsOwned sqlite p

    pub holder-lives :
        (p : Program sqlite) (q : ℕ)
        → IsOwned sqlite p
        → 1 ≤ holders q p.values
        → (live p.heap q ≡ true) × (held p.heap q ≡ 0)
    holder-lives p q own k = elim (Bool-cases (live p.heap q)) [
      | inl e ↦ (e, ground (arith, own.owner q, e, k))
      | inr e ↦ ground (arith, own.owner q, e, k)
    ]

    from_slice-made :
        (buf : Bytes) (h : Heap)
        → let (ptr, h1) = sqlite.sqlite3_malloc64 (length buf) h in
          (ptr == 0) ≡ false
          → from_slice sqlite buf h
            ≡ (ok (ok (record { ptr = ptr; size = length buf })), sqlite.store ptr buf h1)
    from_slice-made buf h e =
        let (ptr, h1) = sqlite.sqlite3_malloc64 (length buf) h in
        from_slice-ok sqlite buf h e (ground (arith, e, law.malloc_live (length buf) h ptr))
          (ground (arith, law.malloc_new (length buf) h (λ z. ground (arith, e, z))))

    pub creates-Safe :
        (buf : Bytes) (p : Program sqlite) → IsOwned sqlite p → Safe (act sqlite (creates buf) p)
    unfolding act from_slice from_raw
    creates-Safe buf p own =
        let (ptr, h1) = sqlite.sqlite3_malloc64 (length buf) p.heap in
        let new = law.malloc_new (length buf) p.heap in
        elim (Bool-cases (ptr == 0)) [
          | inl e ↦ (
            record { values = p.values; heap = h1 },
            rw e refl,
            record {
              owner = λ q. ground (
                arith,
                own.owner q,
                law.malloc_live (length buf) p.heap q,
                law.malloc_held (length buf) p.heap q,
              );
              sized =
                  Sized-kept sqlite p.heap h1 p.values
                    (λ q k. law.malloc_size (length buf) p.heap q (holder-lives p q own k).0)
                    own.sized;
            },
          )
          | inr e ↦
              let there : live h1 ptr ≡ true =
                ground (arith, e, law.malloc_live (length buf) p.heap ptr) in
              let fits : length buf ≤ size h1 ptr =
                ground (arith, law.malloc_new (length buf) p.heap (λ z. ground (arith, e, z))) in
              (
                record {
                  values = record { ptr = ptr; size = length buf } ∷ p.values;
                  heap = sqlite.store ptr buf h1;
                },
                ap (keep_made sqlite p.values) (from_slice-made buf p.heap e),
                record {
                  owner = λ q. ground (
                    arith,
                    own.owner q,
                    law.malloc_live (length buf) p.heap q,
                    law.malloc_held (length buf) p.heap q,
                    law.store_live ptr buf h1 q,
                    law.store_held ptr buf h1 q,
                  );
                  sized = (
                    ground (arith, fits, law.store_size ptr buf h1 ptr),
                    Sized-kept sqlite p.heap (sqlite.store ptr buf h1) p.values
                        (λ q k. ground (
                          arith,
                          law.store_size ptr buf h1 q,
                          law.malloc_size (length buf) p.heap q (holder-lives p q own k).0,
                        ))
                        own.sized,
                  );
                },
              )
        ]

    -- the pointer of `sqlite3_serialize`, which is null or new
    serialized-freeable :
        (c : ℕ) (h : Heap)
        → let (ptr, n, h1) = sqlite.sqlite3_serialize c h in (ptr ≡ 0) ⊎ (live h1 ptr ≡ true)
    serialized-freeable c h =
        let ptr = (sqlite.sqlite3_serialize c h).0 in
        elim (Bool-cases (ptr == 0)) [
          | inl e ↦ inl (ground (arith, e))
          | inr e ↦ inr (ground (arith, e, law.serialize_live c h ptr))
        ]

    serializes-failed :
        (c : ℕ) (p : Program sqlite)
        → IsOwned sqlite p
        → let (ptr, n, h1) = sqlite.sqlite3_serialize c p.heap in
          ((ptr == 0) || is_minus_one n) ≡ true → Safe (act sqlite (serializes c) p)
    unfolding act serialize_db
    serializes-failed c p own e =
        let (ptr, n, h1) = sqlite.sqlite3_serialize c p.heap in
        let ready = serialized-freeable c p.heap in
        let h2 = sqlite.sqlite3_free ptr h1 in
        let unheld : held h1 ptr ≡ 0 = ground (
          arith,
          own.owner ptr,
          law.serialize_live c p.heap ptr,
          law.serialize_held c p.heap ptr,
          law.null_lem p.heap,
        ) in
        let balance : (q : ℕ) → one (live h2 q) ≡ one (live p.heap q) =
          λ q. ground (arith, law.serialize_live c p.heap q, law.free_live ptr h1 q ready) in
        (
          record { values = p.values; heap = h2 },
          ap (keep_made sqlite p.values) (serialize_db-none sqlite c p.heap e ready),
          record {
            owner = λ q. ground (
              arith,
              own.owner q,
              balance q,
              law.serialize_held c p.heap q,
              law.free_held ptr h1 q unheld,
            );
            sized =
                Sized-kept sqlite p.heap h2 p.values
                  (λ q k. ground (
                    arith,
                    balance q,
                    (holder-lives p q own k).0,
                    law.serialize_size c p.heap q (holder-lives p q own k).0,
                    law.free_size ptr h1 q,
                  ))
                  own.sized;
          },
        )

    pub serializes-Safe :
        (c : ℕ) (p : Program sqlite) → IsOwned sqlite p → Safe (act sqlite (serializes c) p)
    unfolding act
    serializes-Safe c p own =
        let (ptr, n, h1) = sqlite.sqlite3_serialize c p.heap in
        elim (Bool-cases (ptr == 0)) [
          | inl e ↦ serializes-failed c p own (rw e refl)
          | inr e ↦ elim (law.serialize_new c p.heap) [
            | inl z ↦ ground (arith, e, z)
            | inr (inl minus) ↦ serializes-failed c p own (rw (e, minus) refl)
            | inr (inr k) ↦ (
              record {
                values = record { ptr = ptr; size = sqlite.size h1 ptr } ∷ p.values;
                heap = h1;
              },
              ap (keep_made sqlite p.values)
                  (serialize_db-some sqlite c (sqlite.size h1 ptr) p.heap e k),
              record {
                owner = λ q. ground (
                  arith,
                  own.owner q,
                  law.serialize_live c p.heap q,
                  law.serialize_held c p.heap q,
                );
                sized = (
                  ground arith,
                  Sized-kept sqlite p.heap h1 p.values
                      (λ q k. law.serialize_size c p.heap q (holder-lives p q own k).0) own.sized,
                );
              },
            )
          ]
        ]

    made-reads :
        (buf : Bytes) (h : Heap)
        → let (ptr, h1) = sqlite.sqlite3_malloc64 (length buf) h in
          (ptr == 0) ≡ false
          → let h2 = sqlite.store ptr buf h1 in
            deref sqlite (record { ptr = ptr; size = length buf }) h2 ≡ (ok buf, h2)
    unfolding deref
    made-reads buf h z =
        let (ptr, h1) = sqlite.sqlite3_malloc64 (length buf) h in
        let h2 = sqlite.store ptr buf h1 in
        let there : live h2 ptr ≡ true =
          ground (arith, z, law.malloc_live (length buf) h ptr, law.store_live ptr buf h1 ptr) in
        let fits : length buf ≤ size h2 ptr = ground (
          arith,
          law.malloc_new (length buf) h (λ n. ground (arith, z, n)),
          law.store_size ptr buf h1 ptr,
        ) in
        access-ok sqlite ptr (length buf) (λ h. (ok (sqlite.load h ptr (length buf)), h)) h2 there
          fits
        ∙ ap (λ b. (ok b, h2)) (law.store_load ptr buf h1)

    -- A value that `from_slice` made reads as the bytes that it was made from.
    pub from_slice-deref :
        (buf : Bytes) (h h' : Heap) (m : SqliteMemory)
        → from_slice sqlite buf h ≡ (ok (ok m), h')
        → deref sqlite m h' ≡ (ok buf, h')
    unfolding from_slice
    from_slice-deref buf h h' m e =
        elim (Bool-cases ((sqlite.sqlite3_malloc64 (length buf) h).0 == 0)) [
          | inl z ↦ cc (rw z at e)
          | inr z ↦ cc (made-reads buf h z, from_slice-made buf h z, e)
        ]

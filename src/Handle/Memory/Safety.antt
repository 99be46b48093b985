-- ===== src/Handle/Memory/Safety.antt =====
-- Programs that use the `SqliteMemory` of src/storage/mod.rs.
use replicat.Prelude.{
  ℕ, ◌+◌, ◌≤◌, ◌≡◌, ◌≢◌, refl, ap, arith, inl, inr, true, Option-cases, some, List, [], ◌∷◌,
}
use replicat.Exec.{Result, ok, Exec}
use replicat.Env.{SqlError}
use replicat.Handle.{status_result}
use replicat.Handle.Memory.Heap.{SqliteHeap, IsSqliteHeap, one, given}
use replicat.Handle.Memory.{
  SqliteMemory, Fault, Program, Action, creates, serializes, reads, drops, deserializes, closes,
  deref, drop_memory, deserialize_db, act, run, take_out, keep,
}
use replicat.Handle.Memory.Owned.{
  holders, Sized, IsOwned, take_out-holders, take_out-Sized, Sized-kept,
}
use replicat.Handle.Memory.Calls.{access-ok, free-ok}
use replicat.Handle.Memory.Create.{Safe, holder-lives, creates-Safe, serializes-Safe}

module _ (sqlite : SqliteHeap) where
  open sqlite use {Heap, live, size, held}

  module _ (law : IsSqliteHeap sqlite) where
    module _ (i : ℕ) (p : Program sqlite) (own : IsOwned sqlite p) (m : SqliteMemory)
        (rest : List SqliteMemory) (found : take_out i p.values ≡ some (m, rest)) where
      taken-lives : (live p.heap m.ptr ≡ true) × (held p.heap m.ptr ≡ 0)
      taken-lives =
          holder-lives sqlite law p m.ptr own
            (ground (arith, take_out-holders i p.values m rest m.ptr found))

      fits : m.size ≤ size p.heap m.ptr
      fits = (take_out-Sized sqlite p.heap i p.values m rest found own.sized).0

      rest-Sized : Sized sqlite p.heap rest
      rest-Sized = (take_out-Sized sqlite p.heap i p.values m rest found own.sized).1

      -- the owners of what the other values have
      rest-lives :
          (q : ℕ) → 1 ≤ holders q rest → (live p.heap q ≡ true) × (held p.heap q ≡ 0) × (q ≢ m.ptr)
      rest-lives q k =
          let count = take_out-holders i p.values m rest q found in
          let (l, h) = holder-lives sqlite law p q own (omega (arith, k, count)) in
          (l, h, λ e. ground (arith, own.owner q, l, count, k, e))

      reads-found : Safe sqlite law (act sqlite (reads i) p)
      unfolding act deref
      reads-found = (
        p,
        rw found (
            ap (keep sqlite p.values) (
              access-ok sqlite m.ptr m.size (λ h. (ok (sqlite.load h m.ptr m.size), h)) p.heap
                taken-lives.0 fits)),
        own,
      )

      drops-found : Safe sqlite law (act sqlite (drops i) p)
      unfolding act drop_memory
      drops-found =
          let h' = sqlite.sqlite3_free m.ptr p.heap in
          let freed : (q : ℕ) → one (live p.heap q) ≡ given m.ptr q + one (live h' q) =
            λ q. law.free_live m.ptr p.heap q (inr taken-lives.0) in
          (
            record { values = rest; heap = h' },
            rw found (ap (keep sqlite rest) (free-ok sqlite m.ptr p.heap (inr taken-lives.0))),
            record {
              owner = λ q. ground (
                arith,
                own.owner q,
                freed q,
                law.free_held m.ptr p.heap q taken-lives.1,
                take_out-holders i p.values m rest q found,
                law.null_lem p.heap,
                taken-lives.0,
              );
              sized =
                  Sized-kept sqlite p.heap h' rest
                    (λ q k. ground (
                      arith,
                      freed q,
                      law.free_size m.ptr p.heap q,
                      (rest-lives q k).0,
                      (rest-lives q k).2,
                    ))
                    rest-Sized;
            },
          )

      deserializes-found : (c : ℕ) → Safe sqlite law (act sqlite (deserializes c i) p)
      unfolding act deserialize_db
      deserializes-found c =
          let (status, h') = sqlite.sqlite3_deserialize c m.ptr m.size p.heap in
          let call : Exec Heap Fault (Result SqlError Unit) = λ h.
            let (status, h') = sqlite.sqlite3_deserialize c m.ptr m.size h in
            (ok (status_result status), h') in
          (
            record { values = rest; heap = h' },
            rw found (
                ap (keep sqlite rest)
                  (access-ok sqlite m.ptr m.size call p.heap taken-lives.0 fits)),
            record {
              owner = λ q. ground (
                arith,
                own.owner q,
                law.deserialize_live c m.ptr m.size p.heap q taken-lives.0 taken-lives.1,
                take_out-holders i p.values m rest q found,
              );
              sized =
                  Sized-kept sqlite p.heap h' rest
                    (λ q k.
                      let (l, z, ne) = rest-lives q k in
                      law.deserialize_size c m.ptr m.size p.heap q l z ne)
                    rest-Sized;
            },
          )

    act-Safe :
        (a : Action) (p : Program sqlite) → IsOwned sqlite p → Safe sqlite law (act sqlite a p)
    unfolding act
    act-Safe (creates buf) p own = creates-Safe sqlite law buf p own
    act-Safe (serializes c) p own = serializes-Safe sqlite law c p own
    act-Safe (reads i) p own = elim (Option-cases (take_out i p.values)) [
      | inl none_there ↦ (p, rw none_there refl, own)
      | inr ((m, rest), found) ↦ reads-found i p own m rest found
    ]
    act-Safe (drops i) p own = elim (Option-cases (take_out i p.values)) [
      | inl none_there ↦ (p, rw none_there refl, own)
      | inr ((m, rest), found) ↦ drops-found i p own m rest found
    ]
    act-Safe (deserializes c i) p own = elim (Option-cases (take_out i p.values)) [
      | inl none_there ↦ (p, rw none_there refl, own)
      | inr ((m, rest), found) ↦ deserializes-found i p own m rest found c
    ]
    act-Safe (closes c) p own = (
      record p { heap = sqlite.close c p.heap },
      refl,
      record {
        owner = λ q. ground (arith, own.owner q, law.close_live c p.heap q);
        sized =
            Sized-kept sqlite p.heap (sqlite.close c p.heap) p.values
              (λ q k.
                let (l, z) = holder-lives sqlite law p q own k in law.close_size c p.heap q l z)
              own.sized;
      },
    )

    -- A program that makes values with `from_slice` and `serialize_db`, reads them, drops them, hands
    -- them to connections with `deserialize_db` and closes connections, in any order and whichever
    -- calls fail, comes to no fault: nothing is freed twice, or read after it was freed or past its
    -- end, and no null pointer is wrapped. At its end every allocation that was not freed has one
    -- owner, and nothing else has an owner.
    pub run-IsOwned :
        (actions : List Action) (p : Program sqlite)
        → IsOwned sqlite p
        → (p' : Program sqlite) × (run sqlite actions p ≡ ok p') × IsOwned sqlite p'
    unfolding run
    run-IsOwned [] p own = (p, refl, own)
    run-IsOwned (a ∷ rest) p own =
        let (p1, e, own1) = act-Safe a p own in
        let (p2, f, own2) = run-IsOwned rest p1 own1 in (p2, ground (arith, e, f), own2)

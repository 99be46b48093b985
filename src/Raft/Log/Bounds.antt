-- ===== src/Raft/Log/Bounds.antt =====
-- `logs_query` against `RangeBounds::contains` of the standard library.
use replicat.Prelude.{
  ℕ, ◌-◌, ◌^◌, ◌<◌, ◌≡◌, refl, arith, Bool, true, false, ◌&&◌, List, [], ◌∷◌, ltb, leb,
}
use replicat.Openraft.{Entry}
use replicat.Raft.Log.{Bound, included, excluded, unbounded, Range, range_start, range_end}
use replicat.Raft.Log.Abstract.{index_of, where_index}

abbrev pub starts_before : Bound → ℕ → Bool
starts_before (included x) i = leb x i
starts_before (excluded x) i = ltb x i
starts_before unbounded i = true

abbrev ends_after : Bound → ℕ → Bool
ends_after (included x) i = leb i x
ends_after (excluded x) i = ltb i x
ends_after unbounded i = true

abbrev pub contains : Range → ℕ → Bool
contains r i = starts_before r.start_bound i && ends_after r.end_bound i

-- `*x + 1` and `*x - 1` stay within a `u64`.
abbrev pub StartFits : Bound → Type 0
StartFits (excluded x) = x < 2 ^ 64 - 1
StartFits (included x) = Unit
StartFits unbounded = Unit

abbrev EndFits : Bound → Type 0
EndFits (excluded x) = (0 < x) × (x < 2 ^ 64)
EndFits (included x) = Unit
EndFits unbounded = Unit

abbrev pub RangeFits : Range → Type 0
RangeFits r = StartFits r.start_bound × EndFits r.end_bound

start-starts_before : (b : Bound) (i : ℕ) → StartFits b → leb (range_start b) i ≡ starts_before b i
start-starts_before (included x) i h = refl
start-starts_before (excluded x) i h = ground arith
start-starts_before unbounded i h = ground arith

end-ends_after : (b : Bound) (i : ℕ) → EndFits b → i < 2 ^ 63 → leb i (range_end b) ≡ ends_after b i
end-ends_after (included x) i h k = refl
end-ends_after (excluded x) i h k = ground arith
end-ends_after unbounded i h k = ground arith

-- For an index that fits a column of SQLite, the bounds of the query hold exactly where the range
-- contains it, if the range's ends do not wrap around.
pub logs_query-contains :
    (range : Range) (i : ℕ)
    → RangeFits range
    → i < 2 ^ 63
    → (leb (range_start range.start_bound) i && leb i (range_end range.end_bound))
      ≡ contains range i
logs_query-contains range i h k =
    ground
      (arith, start-starts_before range.start_bound i h.0, end-ends_after range.end_bound i h.1 k)

-- the range from a start up to an excluded 0
abbrev pub upto_zero : Bound → Range
upto_zero b = record { start_bound = b; end_bound = excluded 0 }

-- a range up to an excluded 0 contains no index, and its query lets every index from its start on
-- through
empty_range-wraps :
    (b : Bound) (i : ℕ)
    → StartFits b
    → i < 2 ^ 63
    → ((leb (range_start b) i && leb i (range_end (excluded 0))) ≡ starts_before b i)
      × (contains (upto_zero b) i ≡ false)
empty_range-wraps b i h k = (ground (arith, start-starts_before b i h), ground arith)

-- Every index fits a column of SQLite.
abbrev pub AllFit : {M : Type 0} → List (Entry M) → Type 0
AllFit [] = Unit
AllFit (e ∷ es) = (index_of e < 2 ^ 63) × AllFit es

pub where_index-query :
    {M : Type 0} (range : Range) (log : List (Entry M))
    → RangeFits range
    → AllFit log
    → where_index
        (λ i. leb (range_start range.start_bound) i && leb i (range_end range.end_bound))
        log
      ≡ where_index (contains range) log
where_index-query range [] h a = refl
where_index-query range (e ∷ es) h a =
    ground (arith, logs_query-contains range (index_of e) h a.0, where_index-query range es h a.1)

pub where_index-wraps :
    {M : Type 0} (b : Bound) (log : List (Entry M))
    → StartFits b
    → AllFit log
    → (where_index (λ i. leb (range_start b) i && leb i (range_end (excluded 0))) log
        ≡ where_index (starts_before b) log)
      × (where_index (contains (upto_zero b)) log ≡ [])
where_index-wraps b [] h a = (refl, refl)
where_index-wraps b (e ∷ es) h a =
    let (same, none_in) = empty_range-wraps b (index_of e) h a.0 in
    let (rest, empty) = where_index-wraps b es h a.1 in
    (ground (arith, same, rest), ground (arith, none_in, empty))

-- ===== src/Tests/Values.antt =====
-- Parameters that are sent, and rows that are read.
use replicat.Prelude.{String, ◌≡◌, ◌↔◌, refl, List, [], ◌∷◌}
use replicat.Prelude.Int.{pos}
use replicat.Exec.{ok}
use mathlib.Core.List.{reverse}
use replicat.Sql.{Row, integer, text}
use replicat.Env.Memory.{memory}
use replicat.Params.{TransportableParam, from_i64, from_string, to_params}
use replicat.Params.Tuples.{
  Component, into, tuple_to_params, gather, tuple_indices, tuple_to_params-reverse,
}
use replicat.Handle.FromRow.{Field, Columns, from_row, from_row_at, from_row-Columns}

-- `(7, "a")`
abbrev pair : List Component
pair =
    record { Carrier = _; value = pos 7; convert = from_i64 }
    ∷ record { Carrier = String; value = "a"; convert = from_string }
    ∷ []

pair_is_swapped :
    tuple_to_params pair ≡ TransportableParam.string "a" ∷ TransportableParam.i64 (pos 7) ∷ []
unfolding tuple_to_params gather tuple_indices from_i64 from_string
pair_is_swapped = refl

tuple_to_params-reverse_example : tuple_to_params pair ≡ reverse (to_params into pair)
tuple_to_params-reverse_example = tuple_to_params-reverse pair

abbrev fields : List Field
fields =
    record { Carrier = _; from_sql = memory.i64_from_sql }
    ∷ record { Carrier = String; from_sql = memory.string_from_sql }
    ∷ []

abbrev row : Row
row = integer (pos 7) ∷ text "a" ∷ []

row_reads : from_row memory fields row ≡ ok (pos 7, ("a", tt))
unfolding from_row from_row_at
row_reads = refl

from_row-Columns_example :
    (from_row memory fields row ≡ ok (pos 7, ("a", tt))) ↔ Columns fields row (pos 7, ("a", tt))
from_row-Columns_example = from_row-Columns memory fields row (pos 7, ("a", tt))

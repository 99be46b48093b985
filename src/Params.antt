-- ===== src/Params.antt =====
-- src/storage/params.rs: the parameters that a client sends with its SQL.
pub mod Tuples
use replicat.Prelude.{ℕ, String, Bool, true, false, List, [], ◌∷◌}
use replicat.Prelude.Int.{ℤ, pos}
use replicat.Sql.{Bytes, Value}

-- An `f64` is opaque, and stands by its bit pattern.
pub data TransportableParam : Type 0 where
  null : TransportableParam
  bool : Bool → TransportableParam
  i64 : ℤ → TransportableParam
  f64 : ℕ → TransportableParam
  string : String → TransportableParam
  bytes : Bytes → TransportableParam

-- `ToSql`; SQLite has no Booleans, and keeps 1 and 0.
unfoldable pub to_sql : TransportableParam → Value
to_sql TransportableParam.null = Value.null
to_sql (TransportableParam.bool true) = Value.integer (pos 1)
to_sql (TransportableParam.bool false) = Value.integer (pos 0)
to_sql (TransportableParam.i64 v) = Value.integer v
to_sql (TransportableParam.f64 v) = Value.real v
to_sql (TransportableParam.string v) = Value.text v
to_sql (TransportableParam.bytes v) = Value.blob v

-- the `From` instances; an `f32` that is widened is a parameter of the model
unfoldable pub from_bool : Bool → TransportableParam
from_bool v = TransportableParam.bool v

unfoldable pub from_i64 : ℤ → TransportableParam
from_i64 v = TransportableParam.i64 v

-- `v as i64` is the same number
unfoldable pub from_i32 : ℤ → TransportableParam
from_i32 v = TransportableParam.i64 v

unfoldable pub from_f64 : ℕ → TransportableParam
from_f64 v = TransportableParam.f64 v

unfoldable pub from_f32 : (ℕ → ℕ) → ℕ → TransportableParam
from_f32 as_f64 v = TransportableParam.f64 (as_f64 v)

unfoldable pub from_string : String → TransportableParam
from_string v = TransportableParam.string v

-- of a vector and of a slice
unfoldable pub from_bytes : Bytes → TransportableParam
from_bytes v = TransportableParam.bytes v

-- `to_params` of an array, a slice or a vector, given the conversion of an element.
unfoldable pub to_params {ℓ} :
    {A : Type ℓ} → (A → TransportableParam) → List A → List TransportableParam
to_params into [] = []
to_params into (entry ∷ entries) = into entry ∷ to_params into entries

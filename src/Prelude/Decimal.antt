-- ===== src/Prelude/Decimal.antt =====
-- `{}` of a `u64` in `format!`: decimal digits, the highest first.
use Prim.Native.Nat.{ℕ, zero, suc, ◌/◌, ◌%◌, ◌+◌}
use Prim.Native.String.{String, ◌++◌, slice}
use replicat.Prelude.Tests.{ltb, if◌then◌else◌}

abbrev digit : ℕ → String
digit d = slice "0123456789" d (d + 1)

-- A `u64` has at most 20 digits.
digits : ℕ → ℕ → String
digits zero n = ""
digits (suc f) n =
    let rest = digits f (n / 10) in if ltb n 10 then digit n else rest ++ digit (n % 10)

unfoldable pub decimal : ℕ → String
unfolding digits
decimal = digits 20

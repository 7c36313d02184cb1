-- ===== src/Base/Decimal.antt =====
-- Decimal printing of a natural number, Python's `str(n)`.
use Prim.Native.Nat.{ℕ, zero, suc, ◌/◌, ◌%◌}
use Prim.Native.String.{String, ◌++◌}
use mathlib.Core.Path.{◌≡◌, refl}
use mathlib.Core.Bool.{true, false}
use sms_gateway_v.Base.Tests.{ltb, nat_eq, if◌then◌else◌}

digit : ℕ → String
digit n =
    if nat_eq n 0
    then "0"
    else if nat_eq n 1
    then "1"
    else if nat_eq n 2
    then "2"
    else if nat_eq n 3
    then "3"
    else if nat_eq n 4
    then "4"
    else if nat_eq n 5
    then "5"
    else if nat_eq n 6
    then "6"
    else if nat_eq n 7
    then "7"
    else if nat_eq n 8
    then "8"
    else "9"

-- The first argument bounds the number of digits.
digits_from : ℕ → ℕ → String
digits_from zero n = digit n
digits_from (suc f) n = elim (ltb n 10) [
  | true ↦ digit n
  | false ↦ digits_from f (n / 10) ++ digit (n % 10)
]

unfoldable pub decimal : ℕ → String
unfolding digits_from digit
decimal n = digits_from n n

decimal_runs : decimal 1700000000123 ≡ "1700000000123"
unfolding decimal
decimal_runs = refl

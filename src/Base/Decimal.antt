-- ===== src/Base/Decimal.antt =====
-- `str(n)` of an integer.
use halt_proof.Base.Int.{ℤ, pos, negsuc}
use Prim.Native.Nat.{ℕ, zero, suc, ◌+◌, ◌/◌, ◌%◌}
use Prim.Native.String.{String, ◌++◌}
use halt_proof.Base.Tests.{ltb, eqb, if◌then◌else◌}

digit : ℕ → String
digit d =
    if eqb d 0
    then "0"
    else if eqb d 1
    then "1"
    else if eqb d 2
    then "2"
    else if eqb d 3
    then "3"
    else if eqb d 4
    then "4"
    else if eqb d 5
    then "5"
    else if eqb d 6
    then "6"
    else if eqb d 7
    then "7"
    else if eqb d 8
    then "8"
    else "9"

-- The fuel bounds the number of digits.
decimal : ℕ → ℕ → String
decimal zero n = ""
decimal (suc f) n =
    let front = decimal f (n / 10) in if ltb n 10 then digit n else front ++ digit (n % 10)

unfoldable pub str_ℤ : ℤ → String
unfolding decimal digit
str_ℤ (pos n) = decimal (n + 1) n
str_ℤ (negsuc n) = "-" ++ decimal (n + 2) (n + 1)

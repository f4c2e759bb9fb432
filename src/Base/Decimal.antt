-- ===== src/Base/Decimal.antt =====
-- `fmt`'s `%d` for numbers that are not negative, and `+` on texts.
use Prim.Native.Nat.{ℕ, zero, suc, ◌+◌, ◌/◌, ◌%◌}
use Prim.Native.String.{String}
use Prim.Native.String
use base_template_server_go.Base.Tests.{ltb, ◌==◌, if◌then◌else◌, nat_eq}

infixr 66 ◌⧺◌
abbrev pub ◌⧺◌ : String → String → String
s ⧺ t = String.◌++◌ s t

digit : ℕ → String
digit d =
    if d == 0
    then "0"
    else if d == 1
    then "1"
    else if d == 2
    then "2"
    else if d == 3
    then "3"
    else if d == 4
    then "4"
    else if d == 5
    then "5"
    else if d == 6
    then "6"
    else if d == 7
    then "7"
    else if d == 8
    then "8"
    else "9"

-- The digits of `n`, the lowest last, in front of `rest`; a number has fewer digits than its value
-- plus one, which is the fuel.
digits : ℕ → ℕ → String → String
digits zero n rest = rest
digits (suc fuel) n rest =
    let more = digits fuel (n / 10) (digit (n % 10) ⧺ rest) in
    if ltb n 10 then digit n ⧺ rest else more

unfoldable pub decimal : ℕ → String
unfolding digits digit
decimal n = digits (n + 1) n ""

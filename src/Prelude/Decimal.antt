-- ===== src/Prelude/Decimal.antt =====
-- Decimal display of a number (`to_string`, `{}` in a format), and `parse::<i64>`. Twenty digits
-- hold a `u64`.
pub mod Laws
pub mod Bar
use Prim.Native.Nat.{ℕ, zero, suc, ◌+◌, ◌-◌, ◌*◌, ◌/◌, ◌%◌}
use Prim.Native.Char.{code}
use Prim.Native.String.{String, ◌++◌ as ◌<>◌}
use mathlib.Core.Bool.{◌&&◌}
use mathlib.Core.Option.{Option, none, some}
use mathlib.Core.List.{List, [], ◌∷◌}
use klass_mobile_backend.Prelude.Tests.{ltb, leb, ◌==◌, if◌then◌else◌}
use klass_mobile_backend.Prelude.Int.{ℤ, pos, negsuc}
use klass_mobile_backend.Prelude.Word.{two63}

unfoldable pub digit : ℕ → String
digit zero = "0"
digit (suc zero) = "1"
digit (suc (suc zero)) = "2"
digit (suc (suc (suc zero))) = "3"
digit (suc (suc (suc (suc zero)))) = "4"
digit (suc (suc (suc (suc (suc zero))))) = "5"
digit (suc (suc (suc (suc (suc (suc zero)))))) = "6"
digit (suc (suc (suc (suc (suc (suc (suc zero))))))) = "7"
digit (suc (suc (suc (suc (suc (suc (suc (suc zero)))))))) = "8"
digit _ = "9"

unfoldable pub digits : ℕ → ℕ → String
digits zero n = ""
digits (suc f) n =
    let rest = digits f (n / 10) <> digit (n % 10) in if ltb n 10 then digit n else rest

unfoldable pub show_nat : ℕ → String
show_nat n = digits 20 n

unfoldable pub show_int : ℤ → String
show_int (pos n) = show_nat n
show_int (negsuc n) = "-" <> show_nat (suc n)

-- The code points of a text.
abbrev pub codes : String → List ℕ
codes String.[] = []
codes (String.◌∷◌ c s) = code c ∷ codes s

-- The number that the digits write after `acc`; `none` for a character that is no digit.
unfoldable pub read_digits : ℕ → List ℕ → Option ℕ
read_digits acc [] = some acc
read_digits acc (c ∷ cs) =
    let rest = read_digits (acc * 10 + (c - 48)) cs in if leb 48 c && leb c 57 then rest else none

-- At least one digit.
unfoldable pub read_number : List ℕ → Option ℕ
read_number [] = none
read_number (c ∷ cs) = read_digits 0 (c ∷ cs)

unfoldable pub positive : Option ℕ → Option ℤ
positive none = none
positive (some n) = if ltb n two63 then some (pos n) else none

unfoldable pub negative : Option ℕ → Option ℤ
negative none = none
negative (some zero) = some (pos 0)
negative (some (suc n)) = if ltb n two63 then some (negsuc n) else none

unfoldable pub read_signed : List ℕ → Option ℤ
read_signed [] = none
read_signed (c ∷ cs) =
    if c == 43
    then positive (read_number cs)
    else if c == 45
    then negative (read_number cs)
    else positive (read_number (c ∷ cs))

-- `parse::<i64>`: an optional sign, then digits; out of range is an error.
unfoldable pub parse_i64 : String → Option ℤ
parse_i64 s = read_signed (codes s)

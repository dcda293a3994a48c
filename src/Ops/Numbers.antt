-- ===== src/Ops/Numbers.antt =====
-- strconv.Atoi and strconv.ParseInt as internal/ops uses them.
use Prim.Native.Nat.{zero}
use zcr521_ai_mcp.Transfer.Syntax.{is_digit}
use zcr521_ai_mcp.Common.{
  [], ◌∷◌, ℕ, Text, Option, some, none, ℤ, ◌*◌, if◌then◌else◌, pos, ◌+◌, leb, suc, ◌==◌, ◌-◌,
  max_int64, and_then, negsuc,
}

-- The value of digits, with no bound.
unfoldable pub digits_value : ℕ → Text → Option ℕ
digits_value acc [] = some acc
digits_value acc (c ∷ s) =
    let rest = digits_value (acc * 10 + (c - b'0')) s in if is_digit c then rest else none

abbrev pub digits : Text → Option ℕ
digits [] = none
digits (c ∷ s) = digits_value 0 (c ∷ s)

abbrev pub int_of : ℕ → Option ℤ
int_of n = if leb n max_int64 then some (pos n) else none

abbrev pub negative_of : ℕ → Option ℤ
negative_of zero = some (pos 0)
negative_of (suc n) = if leb n max_int64 then some (negsuc n) else none

-- strconv.Atoi, an int having 64 bits.
unfoldable pub atoi : Text → Option ℤ
atoi [] = none
atoi (c ∷ s) =
    if c == b'-'
    then and_then (digits s) negative_of
    else if c == b'+'
    then and_then (digits s) int_of
    else and_then (digits (c ∷ s)) int_of

-- ===== src/Record/Integers.antt =====
-- `strconv.ParseInt(s, 10, 64)`: the integers of internal/record/model.go.
use Prim.Native.Char.{code}
use Prim.Native.String.{String}
use get_magnet.Common.{
  ℕ, zero, suc, ◌+◌, ◌-◌, ◌*◌, ◌^◌, ◌==◌, leb, ◌&&◌, Option, none, some, if◌then◌else◌,
}
use get_magnet.Json.{ℤ, pos, negsuc}

-- The digits that are left, after a number.
unfoldable pub parse_digits : ℕ → String → Option ℕ
parse_digits n String.[] = some n
parse_digits n (String.◌∷◌ c s) =
    let rest = parse_digits (n * 10 + (code c - 48)) s in
    if leb 48 (code c) && leb (code c) 57 then rest else none

unfoldable pub parse_natural : String → Option ℕ
parse_natural String.[] = none
parse_natural (String.◌∷◌ c s) = parse_digits 0 (String.◌∷◌ c s)

unfoldable pub positive : Option ℕ → Option ℤ
positive none = none
positive (some n) = if leb n (2 ^ 63 - 1) then some (pos n) else none

unfoldable pub negate : ℕ → ℤ
negate zero = pos zero
negate (suc n) = negsuc n

unfoldable pub negative : Option ℕ → Option ℤ
negative none = none
negative (some n) = if leb n (2 ^ 63) then some (negate n) else none

-- A sign, then decimal digits; `none` stands for an error of syntax or range.
unfoldable pub parse_int64 : String → Option ℤ
unfolding parse_natural parse_digits positive negative negate
parse_int64 String.[] = none
parse_int64 (String.◌∷◌ c s) =
    if code c == 43
    then positive (parse_natural s)
    else if code c == 45
    then negative (parse_natural s)
    else positive (parse_natural (String.◌∷◌ c s))

-- ===== src/Xlsx/Strconv.antt =====
-- What pkg/common/xlsx uses of Go's strconv: decimal integers of a number of bits.
use Prim.Native.Char.{code}
use openmeeting_server.Base.{
  String, ℕ, zero, suc, ◌+◌, ◌-◌, ◌*◌, ◌^◌, none, some, Option, Bool, true, false, eqb, leb, ltb,
  if◌then◌else◌, ◌&&◌,
}
use openmeeting_server.Base.Int.{ℤ, pos, negsuc}

-- The digits after `acc`
unfoldable pub read_digits : ℕ → String → Option ℕ
read_digits acc String.[] = some acc
read_digits acc (String.◌∷◌ c s) =
    let rest = read_digits (acc * 10 + (code c - 48)) s in
    if leb 48 (code c) && leb (code c) 57 then rest else none

-- `strconv.ParseUint(s, 10, bits)`
unfoldable pub parse_uint : ℕ → String → Option ℕ
unfolding read_digits
parse_uint bits String.[] = none
parse_uint bits (String.◌∷◌ c s) = elim (read_digits 0 (String.◌∷◌ c s)) [
  | none ↦ none
  | some n ↦ if ltb n (2 ^ bits) then some n else none
]

-- The value after the sign, between -2^(bits - 1) and 2^(bits - 1) - 1
abbrev pub signed : Bool → ℕ → ℕ → Option ℤ
signed false bits n = if ltb n (2 ^ (bits - 1)) then some (pos n) else none
signed true bits zero = some (pos 0)
signed true bits (suc n) = if ltb n (2 ^ (bits - 1)) then some (negsuc n) else none

abbrev pub with_sign : Bool → ℕ → Option ℕ → Option ℤ
with_sign negative bits none = none
with_sign negative bits (some n) = signed negative bits n

-- `strconv.ParseInt(s, 10, bits)`
unfoldable pub parse_int : ℕ → String → Option ℤ
unfolding parse_uint
parse_int bits String.[] = none
parse_int bits (String.◌∷◌ c s) =
    if eqb (code c) 45
    then with_sign true bits (parse_uint bits s)
    else if eqb (code c) 43
    then with_sign false bits (parse_uint bits s)
    else with_sign false bits (parse_uint bits (String.◌∷◌ c s))

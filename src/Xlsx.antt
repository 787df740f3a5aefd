-- ===== src/Xlsx.antt =====
-- pkg/common/xlsx/utils.go and xlsx.go: the names of columns, and the values of cells.
pub mod Columns
pub mod Strconv
pub mod Cells
use Prim.Native.String.{◌++◌}
use openmeeting_server.Base.{
  ◌≡◌, refl, String, ℕ, zero, suc, ◌-◌, ◌/◌, ◌%◌, List, [], ◌∷◌, eqb, leb, ltb, if◌then◌else◌, ◌≡◌,
}
use openmeeting_server.Base.Int.{ℤ, pos, negsuc}
use openmeeting_server.Result.{Result, ok, err, hang, panic, element_at}
use openmeeting_server.Decimal.{sprintf_zero_padded}

abbrev pub slices : List String
slices =
    "" ∷ "A" ∷ "B" ∷ "C" ∷ "D" ∷ "E" ∷ "F" ∷ "G" ∷ "H" ∷ "I" ∷ "J" ∷ "K" ∷ "L" ∷ "M" ∷ "N" ∷ "O"
    ∷ "P" ∷ "Q" ∷ "R" ∷ "S" ∷ "T" ∷ "U" ∷ "V" ∷ "W" ∷ "X" ∷ "Y" ∷ "Z" ∷ []

unfoldable pub last_digit : ℕ → ℕ
last_digit num = if eqb (num % 26) 0 then 26 else num % 26

abbrev pub one_more : ℕ → Result (List ℕ) → Result (List ℕ)
one_more k (ok ds) = ok (k ∷ ds)
one_more k (err e) = err e

-- The digits that the loop of `Num2AZ` collects for a number above 26, the last one first.
unfoldable pub digits : ℕ → ℕ → Result (List ℕ)
unfolding last_digit
digits zero num = err hang
digits (suc fuel) num =
    let k = last_digit num in
    let next = (num - k) / 26 in
    let rest = digits fuel next in if leb next 26 then ok (k ∷ next ∷ []) else one_more k rest

-- The loop that puts the letters together.
unfoldable pub join : List ℕ → String → Result String
join [] str = ok str
join (value ∷ temp) str = elim (element_at slices value) [
  | ok letter ↦ join temp (letter ++ str)
  | err e ↦ err e
]

unfoldable pub join_all : Result (List ℕ) → Result String
unfolding join
join_all (ok temp) = join temp ""
join_all (err e) = err e

-- Thirteen rounds are enough for an int64.
unfoldable pub num2_az : ℤ → Result String
unfolding digits join_all
num2_az (negsuc n) = err panic
num2_az (pos num) = if ltb 26 num then join_all (digits 13 num) else element_at slices num

-- `strconv.Itoa` of the second coordinate
unfoldable pub get_axis : ℤ → ℤ → Result String
unfolding num2_az
get_axis x y = elim (num2_az x) [ ok name ↦ ok (name ++ sprintf_zero_padded 0 y) | err e ↦ err e ]

az28 : num2_az (pos 28) ≡ ok "AB"
unfolding num2_az element_at
az28 = refl

az702 : num2_az (pos 702) ≡ ok "ZZ"
unfolding num2_az element_at
az702 = refl

az703 : get_axis (pos 703) (pos 12) ≡ ok "AAA12"
unfolding get_axis element_at sprintf_zero_padded
az703 = refl

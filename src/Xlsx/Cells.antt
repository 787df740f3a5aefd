-- ===== src/Xlsx/Cells.antt =====
-- pkg/common/xlsx: the text of a cell as the value of a field.
pub mod Bounds
pub mod Index
use openmeeting_server.Base.{
  String, ℕ, suc, ◌+◌, ◌-◌, ◌%◌, ◌^◌, none, some, Option, Bool, true, false, eqb, if◌then◌else◌,
  ◌||◌, List, [], ◌∷◌, ◌==◌,
}
use openmeeting_server.Base.Int.{ℤ, pos, pos_part, neg_part, sub_ℕ}
use openmeeting_server.Base.Lists.{get_elem?}
use openmeeting_server.Result.{Result, ok, err, plain}
use openmeeting_server.Xlsx.Strconv.{parse_int, parse_uint}

-- The kinds of Go's reflection, integers and floats by their bits
pub data Kind : Type 0 where
  bool_kind string_kind other_kind : Kind
  int_kind uint_kind float_kind : ℕ → Kind

-- A float stands as its bits.
pub data Value : Type 0 where
  bool : Bool → Value
  text : String → Value
  int : ℕ → ℤ → Value
  uint : ℕ → ℕ → Value
  float : ℕ → ℕ → Value
  other : Value

-- `ZeroValue`
unfoldable pub zero_value : Kind → Result Value
zero_value bool_kind = ok (bool false)
zero_value (int_kind bits) = ok (int bits (pos 0))
zero_value (uint_kind bits) = ok (uint bits 0)
zero_value (float_kind bits) = ok (float bits 0)
zero_value string_kind = ok (text "")
zero_value other_kind = err plain

abbrev or_plain : {A : Type 0} → (A → Value) → Option A → Result Value
or_plain f none = err plain
or_plain f (some a) = ok (f a)

-- The texts that stand for a Boolean, in lower case
unfoldable pub string2_bool : String → Result Value
string2_bool s =
    if s == "false" || (s == "f" || s == "0")
    then ok (bool false)
    else if s == "true" || (s == "t" || s == "1")
    then ok (bool true)
    else err plain

-- What `SetInt` keeps of an int64 in a field of fewer bits
unfoldable pub truncate : ℕ → ℤ → ℤ
truncate bits i =
    sub_ℕ ((pos_part i + 2 ^ (bits - 1) + 2 ^ bits - neg_part i % 2 ^ bits) % 2 ^ bits)
      (2 ^ (bits - 1))

-- The map of the columns, the latest entry first
unfoldable pub index_from : ℕ → List String → List (String × ℕ) → List (String × ℕ)
index_from i [] col_index = col_index
index_from i (header ∷ headers) col_index = index_from (suc i) headers ((header, i) ∷ col_index)

unfoldable pub get_column_index : List String → List (String × ℕ)
unfolding index_from
get_column_index headers = index_from 0 headers []

unfoldable pub lookup : String → List (String × ℕ) → Option ℕ
lookup tag [] = none
lookup tag ((header, i) ∷ rest) =
    let later = lookup tag rest in if header == tag then some i else later

-- `strings.ToLower`, and `strconv.ParseFloat` as the bits of the number
module _ (to_lower : String → String) (parse_float : ℕ → String → Option ℕ)
    (to_float32 : ℕ → ℕ) where
  -- A float64 in a field of that many bits
  abbrev pub float_of : ℕ → ℕ → Value
  float_of bits f = float bits (if eqb bits 32 then to_float32 f else f)

  unfoldable pub string2_value : String → Kind → Result Value
  unfolding string2_bool parse_int parse_uint
  string2_value s bool_kind = if s == "" then ok (bool false) else string2_bool (to_lower s)
  string2_value s (int_kind bits) =
      if s == "" then ok (int bits (pos 0)) else or_plain (int bits) (parse_int bits s)
  string2_value s (uint_kind bits) =
      if s == "" then ok (uint bits 0) else or_plain (uint bits) (parse_uint bits s)
  string2_value s (float_kind bits) =
      if s == "" then ok (float bits 0) else or_plain (float_of bits) (parse_float bits s)
  string2_value s string_kind = ok (text s)
  string2_value s other_kind = if s == "" then ok other else err plain

  -- A number that does not parse leaves the field as it was.
  abbrev pub set_int : ℕ → ℤ → Option ℤ → Value
  set_int bits old none = int bits old
  set_int bits old (some i) = int bits (truncate bits i)

  abbrev pub set_uint : ℕ → ℕ → Option ℕ → Value
  set_uint bits old none = uint bits old
  set_uint bits old (some n) = uint bits (n % 2 ^ bits)

  abbrev pub set_float : ℕ → ℕ → Option ℕ → Value
  set_float bits old none = float bits old
  set_float bits old (some f) = float_of bits f

  unfoldable pub set_value : Value → String → Result Value
  unfolding parse_int parse_uint truncate
  set_value (text old) value = ok (text value)
  set_value (int bits old) value = ok (set_int bits old (parse_int 64 value))
  set_value (uint bits old) value = ok (set_uint bits old (parse_uint 64 value))
  set_value (float bits old) value = ok (set_float bits old (parse_float 64 value))
  set_value (bool old) value = err plain
  set_value other value = err plain

  -- The cell of a column, if the sheet has it and the row is long enough
  abbrev pub cell : String → List String → List (String × ℕ) → Option String
  cell tag row col_index = elim (lookup tag col_index) [ none ↦ none | some i ↦ get_elem? row i ]

  abbrev pub set_field : Option String → Value → Result Value
  set_field none field = ok field
  set_field (some value) field = set_value field value

  abbrev pub and_fields :
      String → Result Value → Result (List (String × Value)) → Result (List (String × Value))
  and_fields tag (err e) rest = err e
  and_fields tag (ok v) (err e) = err e
  and_fields tag (ok v) (ok vs) = ok ((tag, v) ∷ vs)

  -- `SetStructValues`, on the fields with their tags in order
  unfoldable pub set_struct_values :
      List (String × Value) → List String → List (String × ℕ) → Result (List (String × Value))
  unfolding set_value lookup
  set_struct_values [] row col_index = ok []
  set_struct_values ((tag, field) ∷ fields) row col_index =
      and_fields tag (set_field (cell tag row col_index) field)
        (set_struct_values fields row col_index)

-- ===== src/Xlsx/Cells/Index.antt =====
-- Which column a header names.
use openmeeting_server.Base.{
  String, ℕ, zero, suc, ◌+◌, ◌<◌, ◌≡◌, ◌≢◌, refl, ◌∙◌, ap, List, [], ◌∷◌, Option, none, some, Bool,
  true, false, ◌==◌, eq_iff, if◌then◌else◌, arith,
}
use openmeeting_server.Base.Lists.{get_elem?}
use openmeeting_server.Xlsx.Cells.{index_from, get_column_index, lookup}

next_index : Bool → Option ℕ → Option ℕ
next_index same (some k) = some (suc k)
next_index true none = some 0
next_index false none = none

-- The last of the headers that is `tag`, by its number
last_index : String → List String → Option ℕ
unfolding next_index
last_index tag [] = none
last_index tag (header ∷ headers) = next_index (header == tag) (last_index tag headers)

shifted : ℕ → Option ℕ → Option ℕ → Option ℕ
shifted i none old = old
shifted i (some k) old = some (i + k)

shifted-next_index :
    (same : Bool) (i : ℕ) (r old : Option ℕ)
    → shifted (suc i) r (if same then some i else old) ≡ shifted i (next_index same r) old
unfolding shifted next_index
shifted-next_index true i none old = ap some (omega arith)
shifted-next_index false i none old = refl
shifted-next_index same i (some k) old = ap some (omega arith)

lookup-index_from :
    (tag : String) (i : ℕ) (headers : List String) (m : List (String × ℕ))
    → lookup tag (index_from i headers m) ≡ shifted i (last_index tag headers) (lookup tag m)
unfolding lookup index_from last_index shifted
lookup-index_from tag i [] m = refl
lookup-index_from tag i (header ∷ headers) m =
    lookup-index_from tag (suc i) headers ((header, i) ∷ m)
    ∙ shifted-next_index (header == tag) i (last_index tag headers) (lookup tag m)

-- A column with this header that no later one has, or no column at all
abbrev pub IsLast : String → List String → Option ℕ → Type 0
IsLast tag headers none = (j : ℕ) → get_elem? headers j ≢ some tag
IsLast tag headers (some i) =
    (get_elem? headers i ≡ some tag) × ((j : ℕ) → i < j → get_elem? headers j ≢ some tag)

absent-suc :
    (tag header : String) (headers : List String) (i j : ℕ)
    → ((j : ℕ) → i < j → get_elem? headers j ≢ some tag)
    → suc i < j
    → get_elem? (header ∷ headers) j ≢ some tag
absent-suc tag header headers i zero h lt e = absurd (omega (arith, lt))
absent-suc tag header headers i (suc j) h lt e = h j (omega (arith, lt)) e

absent-tail :
    (tag header : String) (headers : List String) (j : ℕ)
    → ((j : ℕ) → get_elem? headers j ≢ some tag)
    → 0 < j
    → get_elem? (header ∷ headers) j ≢ some tag
absent-tail tag header headers zero h lt e = absurd (omega (arith, lt))
absent-tail tag header headers (suc j) h lt e = h j e

absent-all :
    (tag header : String) (headers : List String) (j : ℕ)
    → ((j : ℕ) → get_elem? headers j ≢ some tag)
    → (header == tag) ≡ false
    → get_elem? (header ∷ headers) j ≢ some tag
absent-all tag header headers zero h other e = absurd (cc (other, (eq_iff header tag).1 (cc e)))
absent-all tag header headers (suc j) h other e = h j e

IsLast-next_index :
    (tag header : String) (headers : List String) (same : Bool) (r : Option ℕ)
    → (header == tag) ≡ same
    → IsLast tag headers r
    → IsLast tag (header ∷ headers) (next_index same r)
unfolding next_index
IsLast-next_index tag header headers same (some k) e h =
    (h.0, λ j lt. absent-suc tag header headers k j h.1 lt)
IsLast-next_index tag header headers true none e h =
    (ap some ((eq_iff header tag).0 e), λ j lt. absent-tail tag header headers j h lt)
IsLast-next_index tag header headers false none e h = λ j. absent-all tag header headers j h e

last_index-IsLast :
    (tag : String) (headers : List String) → IsLast tag headers (last_index tag headers)
unfolding last_index
last_index-IsLast tag [] = λ j e. cc e
last_index-IsLast tag (header ∷ headers) =
    IsLast-next_index tag header headers (header == tag) (last_index tag headers) refl
      (last_index-IsLast tag headers)

shifted-zero : (r : Option ℕ) → shifted 0 r none ≡ r
unfolding shifted
shifted-zero none = refl
shifted-zero (some k) = ap some (omega arith)

-- The number that GetColumnIndex has for a header is that of a column with this header after which
-- no column has it; when it has none, no column has it.
pub get_column_index-IsLast :
    (tag : String) (headers : List String)
    → IsLast tag headers (lookup tag (get_column_index headers))
unfolding get_column_index lookup
get_column_index-IsLast tag headers =
    rw (lookup-index_from tag 0 headers [] ∙ shifted-zero (last_index tag headers))
      (last_index-IsLast tag headers)

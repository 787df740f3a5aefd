-- ===== src/ErrorRelation.antt =====
-- pkg/common/servererrs/relation.go: which error codes are kinds of which.
pub mod Order
use openmeeting_server.Base.{
  ℕ, List, [], ◌∷◌, Option, none, some, Bool, true, false, ◌||◌, eqb, if◌then◌else◌,
}
use openmeeting_server.Constants.{user_id_not_found_error}
use openmeeting_server.Result.{Result, ok, err, panic}

unfoldable pub contains_code : ℕ → List ℕ → Bool
contains_code code [] = false
contains_code code (x ∷ xs) = let rest = contains_code code xs in if eqb x code then true else rest

abbrev group_id_not_found_error : ℕ
group_id_not_found_error = 1201

abbrev group_id_existed : ℕ
group_id_existed = 1202

-- `map[int]map[int]struct{}`, by its lookups
abbrev pub Relation : Type 0
Relation = ℕ → Option (ℕ → Bool)

abbrev pub children : Option (ℕ → Bool) → ℕ → Bool
children none code = false
children (some s) code = s code

-- The codes after a parent go into its set, which is made when it is not there.
unfoldable pub add_children : ℕ → List ℕ → Relation → Relation
unfolding contains_code
add_children parent codes m p =
    if eqb p parent
    then some (λ code. children (m parent) code || contains_code code codes)
    else m p

abbrev pub empty : Relation
empty code = none

-- The loop of `Add`
unfoldable pub add_each : List ℕ → Relation → Relation
unfolding add_children
add_each [] m = m
add_each (parent ∷ []) m = m
add_each (parent ∷ code ∷ codes) m = add_each (code ∷ codes) (add_children parent (code ∷ codes) m)

unfoldable pub add : List ℕ → Relation → Result Relation
unfolding add_each
add [] m = err panic
add (code ∷ []) m = err panic
add (parent ∷ code ∷ codes) m = ok (add_each (parent ∷ code ∷ codes) m)

unfoldable pub is : Relation → ℕ → ℕ → Bool
is m parent child = if eqb parent child then true else children (m parent) child

-- `init`, with the two codes that the errs package has for a missing record and a duplicate key
unfoldable pub init : ℕ → ℕ → Relation
unfolding add_each
init record_not_found_error duplicate_key_error =
    add_each (duplicate_key_error ∷ group_id_existed ∷ []) (
      add_each (record_not_found_error ∷ group_id_not_found_error ∷ [])
        (add_each (record_not_found_error ∷ user_id_not_found_error ∷ []) empty))

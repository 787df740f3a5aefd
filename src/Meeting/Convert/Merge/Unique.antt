-- ===== src/Meeting/Convert/Merge/Unique.antt =====
-- `mergeAndUnique` as a union of sets, kept in order.
use openmeeting_server.Base.{
  ◌≤◌, String, List, [], ◌∷◌, ◌++◌, true, false, ◌≡◌, refl, sym, ap, ◌∙◌, eq_iff, Bool-cases, inl,
  inr, if◌then◌else◌, arith,
}
use openmeeting_server.Base.Lists.{contains, count, contains-append, count-append, count-of_absent}
use openmeeting_server.Meeting.Convert.Merge.{unique_onto, merge_and_unique}

-- What the two loops keep: the map holds what the result holds.
abbrev Agrees : List String × List String → Type 0
Agrees s = (x : String) → contains x s.0 ≡ contains x s.1

unique_onto-Agrees :
    (exists result array : List String)
    → Agrees (exists, result)
    → Agrees (unique_onto exists result array)
unfolding unique_onto contains
unique_onto-Agrees exists result [] h = h
unique_onto-Agrees exists result (v ∷ array) h = elim (Bool-cases (contains v exists)) [
  | inl e ↦ rw e (unique_onto-Agrees exists result array h)
  | inr e ↦ rw e (
      unique_onto-Agrees (v ∷ exists) (result ++ v ∷ []) array
        λ x. ground (arith, h x, contains-append x result (v ∷ [])))
]

contains-unique_onto :
    (x : String) (exists result array : List String)
    → contains x (unique_onto exists result array).0
      ≡ (if contains x exists then true else contains x array)
unfolding unique_onto contains
contains-unique_onto x exists result [] = ground arith
contains-unique_onto x exists result (v ∷ array) = ground (
  arith,
  eq_iff v x,
  contains-unique_onto x exists result array,
  contains-unique_onto x (v ∷ exists) (result ++ v ∷ []) array,
)

once_more :
    (x v : String) (result : List String)
    → count x result ≤ 1
    → contains v result ≡ false
    → count x (result ++ v ∷ []) ≤ 1
unfolding count
once_more x v result once absent =
    ground (arith, count-append x result (v ∷ []), eq_iff v x, count-of_absent v result absent)

-- No entry of the result stands twice.
count-unique_onto :
    (x : String) (exists result array : List String)
    → Agrees (exists, result)
    → count x result ≤ 1
    → count x (unique_onto exists result array).1 ≤ 1
unfolding unique_onto
count-unique_onto x exists result [] h once = once
count-unique_onto x exists result (v ∷ array) h once = elim (Bool-cases (contains v exists)) [
  | inl e ↦ rw e (count-unique_onto x exists result array h once)
  | inr e ↦ rw e (
      count-unique_onto x (v ∷ exists) (result ++ v ∷ []) array
        (unfold contains in λ y. ground (arith, h y, contains-append y result (v ∷ [])))
        (once_more x v result once (sym (h v) ∙ e)))
]

no_key-Agrees : Agrees ([], [])
no_key-Agrees x = refl

-- An id is in the merged list exactly when it is in one of the two lists, and it is there once.
pub merge_and_unique-union :
    (array1 array2 : List String) (x : String)
    → (contains x (merge_and_unique array1 array2)
        ≡ (if contains x array1 then true else contains x array2))
      × (count x (merge_and_unique array1 array2) ≤ 1)
unfolding merge_and_unique contains
merge_and_unique-union array1 array2 x =
    let agrees1 = unique_onto-Agrees [] [] array1 no_key-Agrees in
    let first = unique_onto [] [] array1 in
    (
      sym (unique_onto-Agrees first.0 first.1 array2 agrees1 x)
          ∙ contains-unique_onto x first.0 first.1 array2
          ∙ ap (λ b. if b then true else contains x array2) (contains-unique_onto x [] [] array1),
      count-unique_onto x first.0 first.1 array2 agrees1
          (count-unique_onto x [] [] array1 no_key-Agrees (unfold count in omega arith)),
    )

-- ===== src/Meeting/Convert/Days/Sorted.antt =====
-- `getDBRepeatDayOfWeek` stores the days in order, and loses none.
use openmeeting_server.Base.{
  ℕ, suc, ◌≡◌, refl, ◌∙◌, List, [], ◌∷◌, arith, Bool-cases, inl, inr, if◌then◌else◌,
}
use openmeeting_server.Base.Int.{ℤ, ◌≤ℤ◌, eqb_ℤ, ltb_ℤ}
use openmeeting_server.Base.Lists.{All}
use openmeeting_server.Meeting.Convert.Days.{insert, sort, get_db_repeat_day_of_week}

-- How often a day is in the list.
abbrev pub count_day : ℤ → List ℤ → ℕ
count_day x [] = 0
count_day x (d ∷ days) = let rest = count_day x days in if eqb_ℤ x d then suc rest else rest

abbrev pub IsSorted : List ℤ → Type 0
IsSorted [] = Unit
IsSorted (d ∷ days) = All (λ e. d ≤ℤ e) days × IsSorted days

All-insert :
    (b a : ℤ) (days : List ℤ) → b ≤ℤ a → All (λ e. b ≤ℤ e) days → All (λ e. b ≤ℤ e) (insert a days)
unfolding insert
All-insert b a [] h all = (h, tt)
All-insert b a (d ∷ days) h (hd, all) = elim (Bool-cases (ltb_ℤ d a)) [
  | inl e ↦ rw e (hd, All-insert b a days h all)
  | inr e ↦ rw e (h, (hd, all))
]

All-le_trans : (b a : ℤ) (days : List ℤ) → b ≤ℤ a → All (λ e. a ≤ℤ e) days → All (λ e. b ≤ℤ e) days
All-le_trans b a [] h all = tt
All-le_trans b a (d ∷ days) h (hd, all) = (omega arith, All-le_trans b a days h all)

insert-IsSorted : (a : ℤ) (days : List ℤ) → IsSorted days → IsSorted (insert a days)
unfolding insert
insert-IsSorted a [] s = (tt, tt)
insert-IsSorted a (d ∷ days) (all, s) = elim (Bool-cases (ltb_ℤ d a)) [
  | inl e ↦ rw e (All-insert d a days (ground arith) all, insert-IsSorted a days s)
  | inr e ↦ rw e ((ground arith, All-le_trans a d days (ground arith) all), (all, s))
]

count-insert : (x a : ℤ) (days : List ℤ) → count_day x (insert a days) ≡ count_day x (a ∷ days)
unfolding insert
count-insert x a [] = refl
count-insert x a (d ∷ days) = ground (arith, count-insert x a days)

-- The stored days are in ascending order, and every day is there as often as in the request.
pub get_db_repeat_day_of_week-IsSorted :
    (weeks : List ℤ)
    → IsSorted (get_db_repeat_day_of_week weeks)
      × ((x : ℤ) → count_day x (get_db_repeat_day_of_week weeks) ≡ count_day x weeks)
unfolding get_db_repeat_day_of_week sort
get_db_repeat_day_of_week-IsSorted [] = (tt, λ x. refl)
get_db_repeat_day_of_week-IsSorted (a ∷ as') =
    let (s, c) = get_db_repeat_day_of_week-IsSorted as' in
    (insert-IsSorted a (sort as') s, λ x. count-insert x a (sort as') ∙ ground (arith, c x))

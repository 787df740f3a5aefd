-- ===== src/Meeting/Convert/Days.antt =====
-- The days of the week of a custom repetition: `getDBRepeatDayOfWeek` of convert.go, with the order of
-- pkg/common/convert/system.go, and `getClientRepeatDayOfWeek`.
pub mod Sorted
use openmeeting_server.Base.{List, Bool, [], ◌∷◌, if◌then◌else◌}
use openmeeting_server.Base.Int.{ℤ, ltb_ℤ}

-- `ByInt32.Less`
abbrev pub less : ℤ → ℤ → Bool
less a b = ltb_ℤ a b

pub insert : ℤ → List ℤ → List ℤ
insert a [] = a ∷ []
insert a (b ∷ bs) = if less b a then b ∷ insert a bs else a ∷ b ∷ bs

-- `sort.Sort`: on integers every sorting method has this result.
unfoldable pub sort : List ℤ → List ℤ
unfolding insert
sort [] = []
sort (a ∷ as') = insert a (sort as')

-- The int32 of a day of the week is the day.
unfoldable pub get_db_repeat_day_of_week : List ℤ → List ℤ
unfolding sort
get_db_repeat_day_of_week weeks = sort weeks

unfoldable pub get_client_repeat_day_of_week : List ℤ → List ℤ
get_client_repeat_day_of_week [] = []
get_client_repeat_day_of_week (one ∷ rest) = one ∷ get_client_repeat_day_of_week rest

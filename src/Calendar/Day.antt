-- ===== src/Calendar/Day.antt =====
-- Dates and days of the Gregorian calendar, in the steps of Go's time package: cycles of 400, 100, 4
-- and 1 years, and months by a table. Day 0 is the first of January of the year zero; months are
-- numbered from 0, and the days of a month from 1.
pub mod RoundTrip
use openmeeting_server.Base.{
  ◌≡◌, refl, ℕ, ◌+◌, ◌-◌, ◌*◌, ◌/◌, ◌%◌, Bool, true, false, ◌&&◌, ◌||◌, not, leb, ltb, eqb,
  if◌then◌else◌, List, [], ◌∷◌, none, some,
}
use openmeeting_server.Base.Lists.{get_elem?}

-- The year zero is -292277022399, one more than a multiple of 400.
unfoldable pub is_leap : ℕ → Bool
is_leap y = eqb ((y + 1) % 4) 0 && (not (eqb ((y + 1) % 100) 0) || eqb ((y + 1) % 400) 0)

-- `daysSinceEpoch`
unfoldable pub days_before_year : ℕ → ℕ
days_before_year y =
    146097 * (y / 400) + 36524 * (y % 400 / 100) + 1461 * (y % 100 / 4) + 365 * (y % 4)

-- The last of the cycles of 100 years, and of one year, may be a day longer.
abbrev cut : ℕ → ℕ
cut n = n - n / 4

-- The day of the cycles of 400, 100 and 4 years.
abbrev in_400 : ℕ → ℕ
in_400 d = d % 146097

abbrev in_100 : ℕ → ℕ
in_100 d = in_400 d - 36524 * cut (in_400 d / 36524)

abbrev in_4 : ℕ → ℕ
in_4 d = in_100 d % 1461

unfoldable pub year_of : ℕ → ℕ
year_of d =
    400 * (d / 146097) + 100 * cut (in_400 d / 36524) + 4 * (in_100 d / 1461) + cut (in_4 d / 365)

-- The day of the year, from 0.
unfoldable pub year_day : ℕ → ℕ
year_day d = in_4 d - 365 * cut (in_4 d / 365)

abbrev days_before_table : List ℕ
days_before_table = 0 ∷ 31 ∷ 59 ∷ 90 ∷ 120 ∷ 151 ∷ 181 ∷ 212 ∷ 243 ∷ 273 ∷ 304 ∷ 334 ∷ 365 ∷ []

-- `daysBefore`
unfoldable pub days_before : ℕ → ℕ
days_before m = elim (get_elem? days_before_table m) [ none ↦ 0 | some n ↦ n ]

-- The days of the year before its month, as `time.Date` counts them.
unfoldable pub days_before_month : ℕ → ℕ → ℕ
unfolding days_before is_leap
days_before_month y m = days_before m + (if is_leap y && leb 2 m then 1 else 0)

-- Month and day of a day of the year with no leap day: every month is guessed to have 31 days.
unfoldable pub date_at : ℕ → ℕ → ℕ × ℕ
unfolding days_before
date_at m yday =
    if leb (days_before (m + 1)) yday
    then (m + 1, yday - days_before (m + 1) + 1)
    else (m, yday - days_before m + 1)

unfoldable pub common_date : ℕ → ℕ × ℕ
unfolding date_at
common_date yday = date_at (yday / 31) yday

unfoldable pub date_of_year_day : Bool → ℕ → ℕ × ℕ
unfolding common_date
date_of_year_day false yday = common_date yday
date_of_year_day true yday =
    if ltb 59 yday
    then common_date (yday - 1)
    else if eqb yday 59
    then (1, 29)
    else common_date yday

unfoldable pub month_of : ℕ → ℕ
unfolding date_of_year_day is_leap year_of year_day
month_of d = (date_of_year_day (is_leap (year_of d)) (year_day d)).0

unfoldable pub day_of_month : ℕ → ℕ
unfolding date_of_year_day is_leap year_of year_day
day_of_month d = (date_of_year_day (is_leap (year_of d)) (year_day d)).1

-- 2024-02-29 is the day 19782 after 1970-01-01.
leap_day : (month_of (19782 + 106751991073094) ≡ 1) × (day_of_month (19782 + 106751991073094) ≡ 29)
unfolding month_of day_of_month
leap_day = (refl, refl)

-- ===== src/Calendar/Day/RoundTrip.antt =====
-- The date of a day, counted back to the day.
use openmeeting_server.Base.{
  ◌≡◌, ℕ, ◌+◌, arith, zero, suc, ◌-◌, ◌/◌, ◌<◌, ◌≤◌, Bool, true, false, Bool-cases, inl, inr, leb,
  ltb, eqb, refl, if◌then◌else◌, ◌&&◌,
}
use openmeeting_server.Calendar.Day.{
  days_before_month, days_before_year, year_of, year_day, is_leap, days_before, date_at,
  common_date, date_of_year_day, month_of, day_of_month, days_before_month,
}

days_before_year-year_of : (d : ℕ) → days_before_year (year_of d) + year_day d ≡ d
unfolding days_before_year year_of year_day
days_before_year-year_of d = omega arith

year_day-bound : (d : ℕ) → year_day d < 366
unfolding year_day
year_day-bound d = omega arith

year_day-common : (d : ℕ) → is_leap (year_of d) ≡ false → year_day d < 365
unfolding year_day is_leap year_of
year_day-common d h = ground arith

-- What a date found from a day of a common year has.
abbrev Common : ℕ → ℕ × ℕ → Type 0
Common yday (m, d) =
    (days_before m + d ≡ yday + 1) × (1 ≤ d) × (m < 12) × (yday < 59 → m < 2) × (59 ≤ yday → 2 ≤ m)

date_at-Common : (m yday : ℕ) → yday / 31 ≡ m → yday < 365 → Common yday (date_at m yday)
unfolding date_at days_before
date_at-Common zero yday e h = ground arith
date_at-Common (suc zero) yday e h = ground arith
date_at-Common (suc (suc zero)) yday e h = ground arith
date_at-Common (suc (suc (suc zero))) yday e h = ground arith
date_at-Common (suc (suc (suc (suc zero)))) yday e h = ground arith
date_at-Common (suc (suc (suc (suc (suc zero))))) yday e h = ground arith
date_at-Common (suc (suc (suc (suc (suc (suc zero)))))) yday e h = ground arith
date_at-Common (suc (suc (suc (suc (suc (suc (suc zero))))))) yday e h = ground arith
date_at-Common (suc (suc (suc (suc (suc (suc (suc (suc zero)))))))) yday e h = ground arith
date_at-Common (suc (suc (suc (suc (suc (suc (suc (suc (suc zero))))))))) yday e h = ground arith
date_at-Common (suc (suc (suc (suc (suc (suc (suc (suc (suc (suc zero)))))))))) yday e h =
    ground arith
date_at-Common (suc (suc (suc (suc (suc (suc (suc (suc (suc (suc (suc zero))))))))))) yday e h =
    ground arith
date_at-Common (suc (suc (suc (suc (suc (suc (suc (suc (suc (suc (suc (suc m)))))))))))) yday e h =
    absurd (omega arith)

common_date-Common : (yday : ℕ) → yday < 365 → Common yday (common_date yday)
unfolding common_date
common_date-Common yday h = date_at-Common (yday / 31) yday refl h

-- The month and the day of the month lead back to the day of the year.
abbrev Back : Bool → ℕ → ℕ × ℕ → Type 0
Back leap yday (m, d) =
    (days_before m + (if leap && leb 2 m then 1 else 0) + d ≡ yday + 1) × (1 ≤ d) × (m < 12)

Common-Back : (yday : ℕ) (date : ℕ × ℕ) → Common yday date → Back false yday date
Common-Back yday (m, d) (e, b, t, _, _) = (omega (arith, e), b, t)

early-Back : (yday : ℕ) (date : ℕ × ℕ) → yday < 59 → Common yday date → Back true yday date
early-Back yday (m, d) h (e, b, t, early, _) = let low = early h in (ground (arith, e, low), b, t)

late-Back : (yday : ℕ) (date : ℕ × ℕ) → 59 < yday → Common (yday - 1) date → Back true yday date
late-Back yday (m, d) h (e, b, t, _, late) =
    let high = late (omega arith) in (ground (arith, e, high), b, t)

date_of_year_day-Back :
    (leap : Bool) (yday : ℕ)
    → yday < 366
    → (leap ≡ false → yday < 365)
    → Back leap yday (date_of_year_day leap yday)
unfolding date_of_year_day
date_of_year_day-Back false yday h hf =
    Common-Back yday (common_date yday) (common_date-Common yday (hf refl))
date_of_year_day-Back true yday h hf = elim (Bool-cases (ltb 59 yday)) [
  | inl late ↦ rw late (
      late-Back yday (common_date (yday - 1)) (ground arith)
        (common_date-Common (yday - 1) (ground arith)))
  | inr early ↦ elim (Bool-cases (eqb yday 59)) [
    | inl leap_day ↦ rw (early, leap_day) (ground arith, omega arith, omega arith)
    | inr other ↦
        rw (early, other)
          (early-Back yday (common_date yday) (ground arith)
            (common_date-Common yday (ground arith)))
  ]
]

-- Year, month and day of the month of a day count back to that day.
pub date-round_trip :
    (d : ℕ)
    → (days_before_year (year_of d) + days_before_month (year_of d) (month_of d) + day_of_month d
        ≡ d + 1)
      × (1 ≤ day_of_month d)
      × (month_of d < 12)
unfolding month_of day_of_month days_before_month
date-round_trip d =
    let (e, b, t) =
      date_of_year_day-Back (is_leap (year_of d)) (year_day d) (year_day-bound d)
        (year_day-common d) in
    (omega (arith, e, days_before_year-year_of d), b, t)

-- ===== src/Meeting/Schedule/Next.antt =====
-- `nextMeetingTimestamp` of internal/rpc/meeting/logic.go. Each of its loops takes fuel, and `none`
-- says that it did not end within that.
pub mod Days
use openmeeting_server.Base.{
  ℕ, zero, suc, ◌+◌, ◌*◌, String, List, [], ◌∷◌, Bool, true, false, ◌&&◌, ◌||◌, not, Option, none,
  some, ◌==◌, eqb, if◌then◌else◌,
}
use openmeeting_server.Base.Int.{ℤ, pos, pos_part, neg_part, sub_ℕ, ◌-ℤ◌, ltb_ℤ, eqb_ℤ}
use openmeeting_server.Calendar.{
  Time, Location, zero_time, from_unix, unix, before, after, weekday, add_date,
}
use openmeeting_server.Constants.{
  none_repeat, repeat_daily, repeat_weekly, repeat_week_day, repeat_month, repeat_custom,
  unit_type_day, unit_type_week, unit_type_month,
}
use openmeeting_server.Model.{MeetingInfo}

-- `isValidDay`
unfoldable pub is_valid_day : ℕ → List ℤ → Bool
is_valid_day d [] = false
is_valid_day d (one ∷ days) = if eqb_ℤ (pos d) one then true else is_valid_day d days

-- `interval*7`; an int32 times seven does not overflow an int.
abbrev times_seven : ℤ → ℤ
times_seven n = sub_ℕ (7 * pos_part n) (7 * neg_part n)

-- `for !stop(t) { t = step(t) }`
unfoldable pub advance : ℕ → (Time → Bool) → (Time → Time) → Time → Option Time
advance zero stop step t = none
advance (suc fuel) stop step t =
    let rest = advance fuel stop step (step t) in if stop t then some t else rest

-- The loop of a custom repetition, whose step may itself fail to end.
unfoldable pub advance_custom : ℕ → (Time → Bool) → (Time → Option Time) → Time → Option Time
advance_custom zero stop step t = none
advance_custom (suc fuel) stop step t =
    let rest : Option Time = elim (step t) [
      | none ↦ none
      | some t' ↦ advance_custom fuel stop step t'
    ] in
    if stop t then some t else rest

module _ (loc : Location) where
  unfoldable pub is_weekend : Time → Bool
  unfolding weekday
  is_weekend t = let d = weekday loc t in eqb d 6 || eqb d 0

  -- The step of a custom repetition; an unknown unit leaves the time as it is.
  unfoldable pub custom_unit : String → ℤ → Time → Time
  unfolding add_date
  custom_unit unit interval t =
      if unit == unit_type_day
      then add_date loc t (pos 0) interval
      else if unit == unit_type_week
      then add_date loc t (pos 0) (times_seven interval)
      else if unit == unit_type_month
      then add_date loc t interval (pos 0)
      else t

  -- Seven days are enough to meet any day of the week.
  unfoldable pub to_valid_day : List ℤ → Time → Option Time
  unfolding is_valid_day weekday add_date
  to_valid_day [] t = some t
  to_valid_day (d ∷ days) t =
      advance 8 (λ u. is_valid_day (weekday loc u) (d ∷ days)) (λ u. add_date loc u (pos 0) (pos 1))
        t

  -- The `switch` on the kind of repetition, once the scheduled time has passed.
  unfoldable pub next_time : ℕ → MeetingInfo → Time → Time → Option Time
  unfolding advance advance_custom is_weekend custom_unit to_valid_day before add_date
  next_time fuel info now scheduled_time =
      if info.repeat_type == repeat_daily
      then advance fuel (before now) (λ t. add_date loc t (pos 0) (pos 1)) scheduled_time
      else if info.repeat_type == repeat_weekly
      then advance fuel (before now) (λ t. add_date loc t (pos 0) (pos 7)) scheduled_time
      else if info.repeat_type == repeat_week_day
      then advance fuel (λ t. before now t && not (is_weekend t))
          (λ t. add_date loc t (pos 0) (pos 1)) scheduled_time
      else if info.repeat_type == repeat_month
      then advance fuel (before now) (λ t. add_date loc t (pos 1) (pos 0)) scheduled_time
      else if info.repeat_type == repeat_custom
      then advance_custom fuel (before now)
          (λ t. to_valid_day info.repeat_day_of_week (custom_unit info.uint_type info.interval t))
          scheduled_time
      else some zero_time

-- The end of the function: a time past the end date does not count.
unfoldable pub within_end_date : MeetingInfo → Time → ℤ
unfolding after from_unix unix
within_end_date info t =
    if ltb_ℤ (pos 0) info.end_date && after t (from_unix info.end_date 0) then pos 0 else unix t

-- After the location is known; `now` is read once.
unfoldable pub next_in_location : ℕ → Location → MeetingInfo → Time → Option ℤ
unfolding next_time within_end_date before after from_unix unix
next_in_location fuel loc info now =
    let scheduled_time = from_unix info.scheduled_time 0 in
    let found = next_time loc fuel info now scheduled_time in
    if info.repeat_type == none_repeat
    then some (if before now scheduled_time then unix scheduled_time else pos 0)
    else if ltb_ℤ (pos 0) info.end_date && after now (from_unix info.end_date 0)
    then some (pos 0)
    else if after now scheduled_time
    then elim found [ none ↦ none | some t ↦ some (within_end_date info t) ]
    else some (within_end_date info scheduled_time)

-- Rounds enough for any step of at least a second, and for the two days of a weekend.
unfoldable pub enough_fuel : MeetingInfo → Time → ℕ
unfolding from_unix ◌-ℤ◌
enough_fuel info now = pos_part (now.sec -ℤ (from_unix info.scheduled_time 0).sec) + 5

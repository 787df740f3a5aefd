-- ===== src/Meeting/Schedule/Today.antt =====
-- `IsTodayNeedMeeting` of internal/rpc/meeting/logic.go, and what it asks of the cycles.
use openmeeting_server.Base.{List, [], ◌∷◌, Bool, true, false, ◌==◌, if◌then◌else◌}
use openmeeting_server.Base.Int.{ℤ}
use openmeeting_server.Calendar.{from_unix, day}
use openmeeting_server.Constants.{
  repeat_daily, repeat_weekly, repeat_week_day, repeat_month, repeat_custom, unit_type_day,
  unit_type_week, unit_type_month,
}
use openmeeting_server.Result.{Result, ok, err}
use openmeeting_server.Model.{MeetingInfo}
use openmeeting_server.Env
use openmeeting_server.Env.{Call, Env, Exec, pure, ask, attempt, ◌>>=◌}
use openmeeting_server.Meeting.Schedule.Next.{is_valid_day}

-- Only `(true, nil)` counts.
abbrev holds : Result Bool → Bool
holds (ok b) = b
holds (err e) = false

-- `checkCycle`: the functions are called in turn, until one does not hold.
unfoldable pub check_cycle : List (Exec Bool) → Exec Bool
check_cycle [] = pure true
check_cycle (fn ∷ functions) = do
  result ← attempt fn
  if holds result then check_cycle functions else pure false

module _ (env : Env) where
  ask_clock : {A : Type 0} → (List Call → Result A) → Exec A
  ask_clock answer = ask Env.current_time answer

  same_day_of_month : MeetingInfo → Exec Bool
  unfolding ask_clock
  same_day_of_month info =
      ask_clock (λ h. env.is_same_day_of_month_answer h info.time_zone info.scheduled_time)

  same_weekday : MeetingInfo → Exec Bool
  unfolding ask_clock
  same_weekday info =
      ask_clock (λ h. env.is_same_weekday_answer h info.time_zone info.scheduled_time)

  check_nth_month_cycle : MeetingInfo → Exec Bool
  unfolding check_cycle ask_clock same_day_of_month
  check_nth_month_cycle info = check_cycle (
      ask_clock
        (λ h. env.is_nth_month_cycle_answer h info.time_zone info.scheduled_time info.interval)
      ∷ same_day_of_month info
      ∷ [])

  check_nth_week_cycle : MeetingInfo → Exec Bool
  unfolding check_cycle ask_clock same_weekday
  check_nth_week_cycle info = check_cycle (
      ask_clock
        (λ h. env.is_nth_week_cycle_answer h info.time_zone info.scheduled_time info.interval)
      ∷ same_weekday info
      ∷ [])

  check_nth_day_cycle : MeetingInfo → Exec Bool
  unfolding check_cycle ask_clock
  check_nth_day_cycle info = check_cycle (
      ask_clock
        (λ h. env.is_nth_day_cycle_answer h info.time_zone info.scheduled_time info.interval)
      ∷ [])

  process_interval_type : MeetingInfo → Exec Bool
  unfolding check_nth_month_cycle check_nth_week_cycle check_nth_day_cycle
  process_interval_type info =
      if info.uint_type == unit_type_month
      then check_nth_month_cycle info
      else if info.uint_type == unit_type_week
      then check_nth_week_cycle info
      else if info.uint_type == unit_type_day
      then check_nth_day_cycle info
      else pure false

  -- The day that is looked for among the days of the week is the day of the month.
  custom_day : MeetingInfo → List ℤ → ℤ → Exec Bool
  unfolding process_interval_type is_valid_day from_unix day
  custom_day info [] now = process_interval_type info
  custom_day info (d ∷ days) now = pure (is_valid_day (day env.local (from_unix now 0)) (d ∷ days))

  today_at : MeetingInfo → Result ℤ → Exec Bool
  unfolding same_weekday same_day_of_month custom_day
  today_at info (err e) = pure false
  today_at info (ok now) =
      if info.repeat_type == repeat_daily
      then pure true
      else if info.repeat_type == repeat_weekly
      then (do same_day ← attempt (same_weekday info); pure (holds same_day))
      else if info.repeat_type == repeat_month
      then (do same_day ← attempt (same_day_of_month info); pure (holds same_day))
      else if info.repeat_type == repeat_week_day
      then pure (env.is_weekday now)
      else if info.repeat_type == repeat_custom
      then custom_day info info.repeat_day_of_week now
      else pure false

  unfoldable pub is_today_need_meeting : MeetingInfo → Exec Bool
  unfolding today_at ask_clock
  is_today_need_meeting info = do
    now ← attempt (ask_clock (λ h. env.timestamp_by_timezone_answer h info.time_zone))
    today_at info now

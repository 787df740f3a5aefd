-- ===== src/Meeting/Schedule/Refresh.antt =====
-- The status refresh of internal/rpc/meeting/logic.go. The map `updateData` holds a status or nothing.
pub mod Status
use openmeeting_server.Base.{
  String, List, [], ◌∷◌, Bool, true, false, ◌&&◌, ◌||◌, Option, none, some, ◌==◌, if◌then◌else◌,
}
use openmeeting_server.Base.Int.{ℤ, pos, ◌+ℤ◌, ◌-ℤ◌, ltb_ℤ, eqb_ℤ, int64}
use openmeeting_server.Constants.{scheduled, in_progress, completed, none_repeat}
use openmeeting_server.Result.{Result, ok, err, hang}
use openmeeting_server.Model.{MeetingInfo}
use openmeeting_server.Calendar.{Location}
use openmeeting_server.Env
use openmeeting_server.Env.{Env, Change, Exec, pure, raise, ask, attempt, ◌>>=◌, ◌>>◌}
use openmeeting_server.Storage.{find_by_status, update}
use openmeeting_server.LiveKit.{close_room}
use openmeeting_server.Meeting.Convert.{current_timestamp}
use openmeeting_server.Meeting.Schedule.Next.{next_in_location, enough_fuel}
use openmeeting_server.Meeting.Schedule.Today.{is_today_need_meeting}

-- `info.StartTime+info.MeetingDuration`, an int64
unfoldable pub end_time : ℤ → ℤ → ℤ
unfolding int64 ◌+ℤ◌
end_time start_time duration = int64 (start_time +ℤ duration)

unfoldable pub status_at : MeetingInfo → ℤ → ℤ → ℤ → String → Option String
unfolding end_time
status_at info start_time duration now over =
    if ltb_ℤ (end_time start_time duration) now
    then some over
    else if ltb_ℤ (end_time start_time duration) now && ltb_ℤ now start_time
    then (if info.status == in_progress then none else some in_progress)
    else none

module _ (env : Env) where
  next_or_hang : Option ℤ → Exec ℤ
  next_or_hang none = raise hang
  next_or_hang (some t) = pure t

  next_at : MeetingInfo → Option Location → Exec ℤ
  unfolding next_or_hang next_in_location enough_fuel
  next_at info none = pure (pos 0)
  next_at info (some loc) = do
    now ← ask Env.current_time (λ h. ok (env.time_answer h))
    next_or_hang (next_in_location (enough_fuel info now) loc info now)

  unfoldable pub next_meeting_timestamp : MeetingInfo → Exec ℤ
  unfolding next_at
  next_meeting_timestamp info = next_at info (env.load_location info.time_zone)

  nonrepeat_at : MeetingInfo → Result ℤ → Option String
  unfolding status_at
  nonrepeat_at info (err e) = none
  nonrepeat_at info (ok now) = status_at info info.start_time info.meeting_duration now completed

  unfoldable pub refresh_non_repeat_meeting : MeetingInfo → Exec (Option String)
  unfolding nonrepeat_at
  refresh_non_repeat_meeting info = do
    now ← attempt (ask Env.current_time (λ h. env.timestamp_by_timezone_answer h info.time_zone))
    pure (nonrepeat_at info now)

  -- `GetDayTimestamp`
  get_day_timestamp : ℤ → Exec ℤ
  unfolding int64 ◌-ℤ◌
  get_day_timestamp timestamp = do
    zero_timestamp ← ask Env.current_time (λ h. ok (env.day_zero_answer h))
    pure (int64 (timestamp -ℤ zero_timestamp))

  repeat_today : MeetingInfo → ℤ → Bool → Exec (Option String)
  unfolding next_meeting_timestamp get_day_timestamp status_at
  repeat_today info now_timestamp false = do
    next ← next_meeting_timestamp info
    pure (some (if eqb_ℤ next (pos 0) then completed else scheduled))
  repeat_today info now_timestamp true = do
    start_time ← get_day_timestamp info.scheduled_time
    now ← get_day_timestamp now_timestamp
    pure (status_at info start_time info.meeting_duration now scheduled)

  unfoldable pub refresh_repeat_meeting : MeetingInfo → Exec (Option String)
  unfolding current_timestamp is_today_need_meeting repeat_today
  refresh_repeat_meeting info = do
    now ← current_timestamp env
    if ltb_ℤ (pos 0) info.end_date && ltb_ℤ info.end_date now
        then pure (some completed)
        else (do today ← is_today_need_meeting env info; repeat_today info now today)

  -- `handleCompleteMeeting`, whose error is dropped
  close_if_completed : String → String → Exec (Unit {0})
  unfolding close_room
  close_if_completed meeting_id status =
      if status == completed then (do r ← attempt (close_room env meeting_id); pure tt) else pure tt

  write_status : String → Option String → Exec (Unit {0})
  unfolding close_if_completed update
  write_status meeting_id none = pure tt
  write_status meeting_id (some status) = do
    close_if_completed meeting_id status
    r ← attempt (update env meeting_id (Change.status status ∷ []))
    pure tt

  unfoldable pub refresh_meetings : List MeetingInfo → Exec (Unit {0})
  unfolding refresh_non_repeat_meeting refresh_repeat_meeting write_status
  refresh_meetings [] = pure tt
  refresh_meetings (one ∷ meetings) = do
    status ←
        (if one.repeat_type == none_repeat || one.repeat_type == ""
          then refresh_non_repeat_meeting one
          else refresh_repeat_meeting one)
    write_status one.meeting_id status
    refresh_meetings meetings

  refresh_found : Result (List MeetingInfo) → Exec (Unit {0})
  unfolding refresh_meetings
  refresh_found (err e) = pure tt
  refresh_found (ok meetings) = refresh_meetings meetings

  unfoldable pub refresh_meeting_status : Exec (Unit {0})
  unfolding refresh_found find_by_status
  refresh_meeting_status = do
    meetings ← attempt (find_by_status env (in_progress ∷ scheduled ∷ []) "")
    refresh_found meetings

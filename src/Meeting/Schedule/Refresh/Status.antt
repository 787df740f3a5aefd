-- ===== src/Meeting/Schedule/Refresh/Status.antt =====
-- What the refresh makes of the status of a meeting that does not repeat.
use openmeeting_server.Base.{◌≡◌, none, some, arith, if◌then◌else◌}
use openmeeting_server.Base.Int.{ltb_ℤ}
use openmeeting_server.Constants.{completed}
use openmeeting_server.Result.{ok, err}
use openmeeting_server.Model.{MeetingInfo}
use openmeeting_server.Env.{Env, Process}
use openmeeting_server.Meeting.Schedule.Refresh.{end_time, status_at, refresh_non_repeat_meeting}

-- A meeting that does not repeat is set to Completed when the clock in its time zone is past the end
-- of its start time and duration; otherwise, and when the time zone is unknown, its status stays as it
-- is. In particular it is never set to In-Progress.
pub refresh_non_repeat_lem :
    (env : Env) (info : MeetingInfo) (p : Process)
    → (refresh_non_repeat_meeting env info p).0
      ≡ ok (elim (env.timestamp_by_timezone_answer p.calls info.time_zone) [
        | err e ↦ none
        | ok now ↦
            if ltb_ℤ (end_time info.start_time info.meeting_duration) now
            then some completed
            else none
      ])
unfolding refresh_non_repeat_meeting status_at
refresh_non_repeat_lem env info p = ground arith

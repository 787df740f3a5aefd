-- ===== src/Meeting/Reading.antt =====
-- `GetMeetings` and `GetMeeting` of internal/rpc/meeting/meeting.go.
use openmeeting_server.Base.{String, List, [], ◌∷◌}
use openmeeting_server.Result.{Result, ok, err}
use openmeeting_server.Model.{MeetingInfo}
use openmeeting_server.Wire.{MeetingInfoSetting}
use openmeeting_server.Env.{Env, Exec, pure, attempt, ◌>>=◌, ◌>>◌}
use openmeeting_server.Storage.{find_by_status, take_with_error}
use openmeeting_server.Meeting.Convert.{get_meeting_detail_setting}
use openmeeting_server.Meeting.Schedule.Refresh.{refresh_meeting_status}

-- A meeting with no detail is left out.
unfoldable pub keep_ok :
    Result MeetingInfoSetting → List MeetingInfoSetting → List MeetingInfoSetting
keep_ok (err e) details = details
keep_ok (ok detail) details = detail ∷ details

module _ (env : Env) where
  unfoldable pub details_of : List MeetingInfo → Exec (List MeetingInfoSetting)
  unfolding get_meeting_detail_setting keep_ok
  details_of [] = pure []
  details_of (meeting ∷ meetings) = do
    detail ← attempt (get_meeting_detail_setting env meeting)
    details ← details_of meetings
    pure (keep_ok detail details)

  unfoldable pub get_meetings : List String → String → Exec (List MeetingInfoSetting)
  unfolding refresh_meeting_status find_by_status details_of
  get_meetings status user_id = do
    refresh_meeting_status env
    meetings ← find_by_status env status user_id
    details_of meetings

  unfoldable pub get_meeting : String → Exec MeetingInfoSetting
  unfolding take_with_error get_meeting_detail_setting
  get_meeting meeting_id = do
    meeting_db_info ← take_with_error env meeting_id
    get_meeting_detail_setting env meeting_db_info

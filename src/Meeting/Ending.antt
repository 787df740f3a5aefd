-- ===== src/Meeting/Ending.antt =====
-- `EndMeeting` of internal/rpc/meeting/meeting.go.
pub mod Rights
use openmeeting_server.Base.{String, [], ◌∷◌, if◌then◌else◌}
use openmeeting_server.Base.Int.{ℤ, pos, ltb_ℤ}
use openmeeting_server.Result.{Result, ok, err, args, coded}
use openmeeting_server.Constants.{completed, scheduled, meeting_auth_check_error}
use openmeeting_server.Model.{MeetingInfo}
use openmeeting_server.Wire.{MeetingMetadata}
use openmeeting_server.Env.{Env, Change, Exec, raise, attempt, unless, ◌>>=◌, ◌>>◌}
use openmeeting_server.Storage.{take_with_error, update, delete}
use openmeeting_server.LiveKit.{get_room_data, close_room}
use openmeeting_server.Meeting.Requests.{
  EndMeetingReq, MeetingEndType, end_type, cancel_type, unsupported,
}
use openmeeting_server.Meeting.Permission.{check_auth_permission}
use openmeeting_server.Meeting.Convert.{get_host_user_id}
use openmeeting_server.Meeting.Schedule.Refresh.{next_meeting_timestamp}

-- The host of the room, or the creator if the room cannot be read.
unfoldable pub host_or_creator : MeetingInfo → Result MeetingMetadata → String
host_or_creator db_info (err e) = db_info.creator_user_id
host_or_creator db_info (ok meta_data) = get_host_user_id meta_data

-- The status after the end: a meeting that has a next time is scheduled again.
unfoldable pub status_after_end : ℤ → String
status_after_end next = if ltb_ℤ (pos 0) next then scheduled else completed

module _ (env : Env) where
  store_end : String → String → MeetingEndType → Exec (Unit {0})
  unfolding update delete
  store_end meeting_id status end_type = update env meeting_id (Change.status status ∷ [])
  store_end meeting_id status cancel_type = delete env meeting_id
  store_end meeting_id status (unsupported n) = raise args

  unfoldable pub end_allowed : MeetingInfo → EndMeetingReq → Exec (Unit {0})
  unfolding next_meeting_timestamp status_after_end close_room store_end
  end_allowed db_info req = do
    next ← next_meeting_timestamp env db_info
    close_room env req.meeting_id
    store_end req.meeting_id (status_after_end next) req.end_type

  unfoldable pub end_meeting : EndMeetingReq → Exec (Unit {0})
  unfolding take_with_error get_room_data host_or_creator check_auth_permission end_allowed
  end_meeting req = do
    db_info ← take_with_error env req.meeting_id
    meta_data ← attempt (get_room_data env req.meeting_id)
    unless
        (check_auth_permission db_info.creator_user_id (host_or_creator db_info meta_data)
          req.user_id)
        (coded meeting_auth_check_error) (end_allowed db_info req)

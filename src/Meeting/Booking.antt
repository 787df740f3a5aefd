-- ===== src/Meeting/Booking.antt =====
-- `BookMeeting` and `CreateImmediateMeeting` of internal/rpc/meeting/meeting.go.
use openmeeting_server.Base.{[], ◌∷◌, not, some}
use openmeeting_server.Result.{coded}
use openmeeting_server.Constants.{meeting_user_limit_error}
use openmeeting_server.Wire.{MeetingInfoSetting, LiveKit}
use openmeeting_server.Env.{Env, Exec, pure, unless, ◌>>=◌, ◌>>◌}
use openmeeting_server.UserRpc.{get_user_info}
use openmeeting_server.Storage.{create}
use openmeeting_server.LiveKit.{create_room, update_meta_data}
use openmeeting_server.Meeting.Requests.{BookMeetingReq, CreateImmediateMeetingReq}
use openmeeting_server.Meeting.Permission.{check_user_in_meeting}
use openmeeting_server.Meeting.Convert.{
  generate_meeting_db_data4_booking, generate_meeting_db_data4_create, generate_meeting_meta_data,
  generate_meeting_meta_data4_create, generate_participant_meta_data,
}

module _ (env : Env) where
  unfoldable pub book_meeting : BookMeetingReq → Exec MeetingInfoSetting
  unfolding generate_meeting_db_data4_booking generate_meeting_meta_data create
  book_meeting req = do
    meeting_db_info ← generate_meeting_db_data4_booking env req
    meta_data ← generate_meeting_meta_data env meeting_db_info
    create env (meeting_db_info ∷ [])
    pure meta_data.detail

  unfoldable pub create_immediate_meeting :
      CreateImmediateMeetingReq → Exec (MeetingInfoSetting × LiveKit)
  unfolding check_user_in_meeting get_user_info generate_meeting_db_data4_create
      generate_meeting_meta_data4_create generate_participant_meta_data create_room create
      update_meta_data
  create_immediate_meeting req = do
    in_meeting ← check_user_in_meeting env req.creator_user_id
    unless (not in_meeting) (coded meeting_user_limit_error) (do
      user_info ← get_user_info env req.creator_user_id
      meeting_db_info ← generate_meeting_db_data4_create env req
      meta_data ← generate_meeting_meta_data4_create env req meeting_db_info
      let participant = generate_participant_meta_data user_info
      room ←
          create_room env meeting_db_info.meeting_id req.creator_user_id meta_data
            (some participant)
      create env (meeting_db_info ∷ [])
      update_meta_data env meta_data
      pure (meta_data.detail, record { token = room.1; url = room.2 }))

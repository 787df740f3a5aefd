-- ===== src/Meeting/Joining.antt =====
-- `JoinMeeting`, `GetMeetingToken` and `LeaveMeeting` of internal/rpc/meeting/meeting.go.
pub mod Entry
pub mod Admission
use openmeeting_server.Base.{
  String, [], ◌∷◌, ◌++◌, Bool, false, not, ◌&&◌, ◌||◌, some, ◌==◌, if◌then◌else◌,
}
use openmeeting_server.Base.Int.{ltb_ℤ}
use openmeeting_server.Result.{Err, Result, ok, err, coded, is_record_not_found}
use openmeeting_server.Constants.{meeting_user_limit_error, meeting_password_error}
use openmeeting_server.Model.{MeetingInfo}
use openmeeting_server.Wire.{MeetingMetadata, LiveKit, Room, UserInfo}
use openmeeting_server.Env.{Env, Exec, pure, lift, attempt, unless, ◌>>=◌, ◌>>◌}
use openmeeting_server.UserRpc.{get_user_info}
use openmeeting_server.Storage.{take_with_error}
use openmeeting_server.LiveKit.{
  get_room, list_participants, create_room, get_join_token, update_meta_data, remove_participant,
}
use openmeeting_server.Meeting.Requests.{JoinMeetingReq, UserInMeetingReq}
use openmeeting_server.Meeting.Permission.{check_user_in_meeting}
use openmeeting_server.Meeting.Convert.{
  get_host_user_id, get_creator_user_id, generate_meeting_meta_data, generate_participant_meta_data,
  generate_default_personal_data, current_timestamp,
}
use openmeeting_server.Meeting.Personal.Entries.{is_found}
use openmeeting_server.Meeting.Schedule.Refresh.{end_time}

-- `metaData.Detail.Info.SystemGenerated.MeetingID = meetingID`
unfoldable pub with_meeting_id : String → MeetingMetadata → MeetingMetadata
with_meeting_id id meta_data =
    let system = record meta_data.detail.info.system_generated { meeting_id = id } in
    let info = record meta_data.detail.info { system_generated = system } in
    record meta_data { detail = record meta_data.detail { info = info } }

-- The metadata with an entry for the user, a new one if there is none.
unfoldable pub with_entry_for : String → MeetingMetadata → MeetingMetadata
unfolding is_found generate_default_personal_data
with_entry_for user_id meta_data =
    if is_found user_id meta_data.personal_data then meta_data else record meta_data {
      personal_data = meta_data.personal_data ++ generate_default_personal_data user_id ∷ [];
    }

-- Who may enter: the host, the creator, and whoever knows the password.
unfoldable pub may_enter : JoinMeetingReq → MeetingMetadata → Bool
may_enter req meta_data =
    req.user_id == get_host_user_id meta_data
    || req.user_id == get_creator_user_id meta_data
    || req.password == meta_data.detail.info.creator_defined_meeting.password

module _ (env : Env) where
  -- `checkCanStartMeeting`
  unfoldable pub check_can_start_meeting : MeetingInfo → Exec Bool
  unfolding current_timestamp end_time
  check_can_start_meeting info = do
    now ← current_timestamp env
    pure (
        not (
          info.repeat_type == "" && ltb_ℤ (end_time info.scheduled_time info.meeting_duration) now))

  -- The branch for a room that is not there. The list of participants is asked for, and its loop runs
  -- only on an error, over no participant.
  unfoldable pub start_room : MeetingInfo → UserInfo → JoinMeetingReq → Err → Exec LiveKit
  unfolding check_can_start_meeting generate_meeting_meta_data generate_participant_meta_data
      list_participants create_room
  start_room db_info user_info req e = unless (is_record_not_found e) e (do
    can_start ← check_can_start_meeting db_info
    unless can_start e (do
      meta_data ← generate_meeting_meta_data env db_info
      let participant = generate_participant_meta_data user_info
      ps ← attempt (list_participants env req.meeting_id)
      room ← create_room env db_info.meeting_id user_info.user_id meta_data (some participant)
      pure (record { token = room.1; url = room.2 })))

  unfoldable pub room_meta_data : MeetingInfo → Room → Exec MeetingMetadata
  unfolding generate_meeting_meta_data
  room_meta_data db_info room =
      if room.metadata == ""
      then generate_meeting_meta_data env db_info
      else lift (env.unmarshal_metadata room.metadata)

  -- After the password check.
  unfoldable pub enter_room : UserInfo → JoinMeetingReq → MeetingMetadata → Exec LiveKit
  unfolding get_join_token update_meta_data with_meeting_id with_entry_for
      generate_participant_meta_data
  enter_room user_info req meta_data = do
    let participant = generate_participant_meta_data user_info
    join ← get_join_token env req.meeting_id req.user_id (some participant) false
    update_meta_data env (with_entry_for req.user_id (with_meeting_id req.meeting_id meta_data))
    pure (record { token = join.0; url = join.1 })

  join_found : MeetingInfo → UserInfo → JoinMeetingReq → Result Room → Exec LiveKit
  unfolding start_room room_meta_data may_enter enter_room
  join_found db_info user_info req (err e) = start_room db_info user_info req e
  join_found db_info user_info req (ok room) = do
    meta_data ← room_meta_data db_info room
    unless (may_enter req meta_data) (coded meeting_password_error)
        (enter_room user_info req meta_data)

  unfoldable pub join_meeting : JoinMeetingReq → Exec LiveKit
  unfolding get_user_info take_with_error check_user_in_meeting get_room join_found
  join_meeting req = do
    user_info ← get_user_info env req.user_id
    db_info ← take_with_error env req.meeting_id
    in_meeting ← check_user_in_meeting env req.user_id
    unless (not in_meeting) (coded meeting_user_limit_error)
        (do room ← attempt (get_room env req.meeting_id); join_found db_info user_info req room)

  unfoldable pub get_meeting_token : UserInMeetingReq → Exec (String × LiveKit)
  unfolding get_user_info generate_participant_meta_data get_join_token
  get_meeting_token req = do
    user_info ← get_user_info env req.user_id
    let participant = generate_participant_meta_data user_info
    join ← get_join_token env req.meeting_id req.user_id (some participant) false
    pure (req.meeting_id, record { token = join.0; url = join.1 })

  unfoldable pub leave_meeting : UserInMeetingReq → Exec (Unit {0})
  unfolding remove_participant
  leave_meeting req = remove_participant env req.meeting_id req.user_id

-- ===== src/Meeting/Personal.antt =====
-- Personal settings: `setSelfPersonalSetting` and `setParticipantPersonalSetting` of
-- internal/rpc/meeting/logic.go, and the two handlers of meeting.go. The found entry is changed in
-- place, so the metadata that is sent holds the change.
pub mod Entries
pub mod Limits
use openmeeting_server.Base.{
  String, List, [], ◌∷◌, Bool, true, ◌&&◌, ◌||◌, not, Option, none, some, ◌==◌, if◌then◌else◌,
}
use openmeeting_server.Result.{Result, ok, err, coded, plain}
use openmeeting_server.Constants.{meeting_auth_check_error}
use openmeeting_server.Wire.{PersonalData, PersonalMeetingSetting, MeetingMetadata}
use openmeeting_server.Env.{Env, Exec, pure, lift, deref, unless, ◌>>=◌, ◌>>◌}
use openmeeting_server.LiveKit.{get_room_data, update_meta_data, toggle_mime_stream}
use openmeeting_server.Meeting.Requests.{Context, SetPersonalMeetingSettingsReq, UserInMeetingReq}
use openmeeting_server.Meeting.Permission.{check_user_enable_camera, check_user_enable_microphone}
use openmeeting_server.Meeting.Convert.{get_host_user_id, generate_default_personal_data}
use openmeeting_server.Meeting.Notification.{send_stream_operate_data2_client}
use Entries.{find_personal, with_values, with_personal, is_found, no_value}

-- `GetKeyFromContext` of pkg/common/common.go
first_value : List String → Result String
first_value [] = err plain
first_value (v ∷ _) = ok v

unfoldable pub get_key_from_context : Context → String → Result String
unfolding first_value
get_key_from_context ctx key = elim ctx.incoming [
  | none ↦ err plain
  | some get ↦ first_value (get key)
]

-- The entry of the user, or a new one with the default values.
unfoldable pub or_default : String → Option PersonalData → PersonalData
unfolding generate_default_personal_data
or_default user_id none = generate_default_personal_data user_id
or_default user_id (some one) = one

unfoldable pub entry_of : MeetingMetadata → String → PersonalData
unfolding or_default find_personal
entry_of meta_data user_id = or_default user_id (find_personal user_id meta_data.personal_data)

-- `needUpdate`
need_update : MeetingMetadata → SetPersonalMeetingSettingsReq → Bool
unfolding is_found no_value
need_update meta_data req = not (
    is_found req.user_id meta_data.personal_data
    && (no_value req.camera_on_entry && no_value req.microphone_on_entry))

-- The entry after the user's own change, and after a change by the host.
unfoldable pub self_personal_data : MeetingMetadata → SetPersonalMeetingSettingsReq → PersonalData
unfolding entry_of with_values
self_personal_data meta_data req =
    let old = entry_of meta_data req.user_id in
    record old {
      personal_setting =
          with_values req.camera_on_entry req.microphone_on_entry old.personal_setting;
    }

unfoldable pub participant_personal_data :
    MeetingMetadata → SetPersonalMeetingSettingsReq → PersonalData
unfolding entry_of with_values
participant_personal_data meta_data req =
    let old = entry_of meta_data req.user_id in
    record old {
      limit_setting = with_values req.camera_on_entry req.microphone_on_entry old.limit_setting;
    }

module _ (env : Env) where
  unfoldable pub set_self_personal_setting :
      MeetingMetadata → SetPersonalMeetingSettingsReq → Exec (Unit {0})
  unfolding self_personal_data need_update with_personal check_user_enable_camera
      check_user_enable_microphone update_meta_data
  set_self_personal_setting meta_data req = do
    let personal_data = self_personal_data meta_data req
    setting ← deref meta_data.detail.setting
    toggle_mime_stream env req.meeting_id req.user_id "video"
        (not (check_user_enable_camera setting personal_data))
    toggle_mime_stream env req.meeting_id req.user_id "audio"
        (not (check_user_enable_microphone setting personal_data))
    if need_update meta_data req
        then update_meta_data env (with_personal meta_data personal_data)
        else pure tt

  unfoldable pub set_participant_personal_setting :
      Context → MeetingMetadata → SetPersonalMeetingSettingsReq → Exec (Unit {0})
  unfolding participant_personal_data need_update with_personal check_user_enable_camera
      check_user_enable_microphone update_meta_data send_stream_operate_data2_client
  set_participant_personal_setting ctx meta_data req = do
    let personal_data = participant_personal_data meta_data req
    setting ← deref meta_data.detail.setting
    (if check_user_enable_camera setting personal_data
        then pure tt
        else toggle_mime_stream env req.meeting_id req.user_id "video" true)
    (if check_user_enable_microphone setting personal_data
        then pure tt
        else toggle_mime_stream env req.meeting_id req.user_id "audio" true)
    if need_update meta_data req
        then (do
          update_meta_data env (with_personal meta_data personal_data)
          send_stream_operate_data2_client env ctx req.meeting_id req.user_id req.camera_on_entry
              req.microphone_on_entry)
        else pure tt

  -- The setting of the user's entry; a user with no entry gets none.
  unfoldable pub get_personal_meeting_settings :
      UserInMeetingReq → Exec (Option PersonalMeetingSetting)
  unfolding get_room_data find_personal
  get_personal_meeting_settings req = do
    meta_data ← get_room_data env req.meeting_id
    pure (elim (find_personal req.user_id meta_data.personal_data) [
      | none ↦ none
      | some one ↦ some one.personal_setting
    ])

  unfoldable pub set_personal_meeting_settings :
      Context → SetPersonalMeetingSettingsReq → Exec (Unit {0})
  unfolding get_room_data get_key_from_context set_self_personal_setting
      set_participant_personal_setting
  set_personal_meeting_settings ctx req = do
    meta_data ← get_room_data env req.meeting_id
    user_id ← lift (get_key_from_context ctx ctx.op_user_id_key)
    unless (user_id == get_host_user_id meta_data || user_id == req.user_id)
        (coded meeting_auth_check_error)
        (if user_id == req.user_id
          then set_self_personal_setting meta_data req
          else set_participant_personal_setting ctx meta_data req)

-- ===== src/Meeting/Permission.antt =====
-- internal/rpc/meeting/permission.go: who may act on a meeting, and when a stream may run.
use openmeeting_server.Base.{
  String, List, [], ◌∷◌, Bool, true, false, ◌&&◌, ◌||◌, ◌==◌, if◌then◌else◌,
}
use openmeeting_server.Base.Lists.{contains}
use openmeeting_server.Wire.{MeetingSetting, PersonalData, Room}
use openmeeting_server.Env.{◌>>=◌, Env, Exec, pure}
use openmeeting_server.LiveKit.{get_all_rooms, get_participant_user_ids}

unfoldable pub check_auth_permission : String → String → String → Bool
check_auth_permission creator_user_id host_user_id request_user_id =
    host_user_id == request_user_id || creator_user_id == request_user_id

unfoldable pub check_user_enable_camera : MeetingSetting → PersonalData → Bool
check_user_enable_camera setting personal_data =
    setting.can_participants_enable_camera && personal_data.personal_setting.camera_on_entry
    && personal_data.limit_setting.camera_on_entry

unfoldable pub check_user_enable_microphone : MeetingSetting → PersonalData → Bool
check_user_enable_microphone setting personal_data =
    setting.can_participants_unmute_microphone && personal_data.personal_setting.microphone_on_entry
    && personal_data.limit_setting.microphone_on_entry

module _ (env : Env) where
  unfoldable pub user_in_rooms : String → List Room → Exec Bool
  unfolding get_participant_user_ids contains
  user_in_rooms user_id [] = pure false
  user_in_rooms user_id (room ∷ rooms) = do
    user_ids ← get_participant_user_ids env room.name
    if contains user_id user_ids then pure true else user_in_rooms user_id rooms

  unfoldable pub check_user_in_meeting : String → Exec Bool
  unfolding get_all_rooms user_in_rooms
  check_user_in_meeting user_id = do rooms ← get_all_rooms env; user_in_rooms user_id rooms

-- ===== src/Tests.antt =====
-- The theorems at concrete environments and requests.
pub mod Sample
pub mod Redis
pub mod Accounts
pub mod Routes
pub mod Platform
pub mod Launching
pub mod Meetings
use openmeeting_server.Base.{
  String, [], ◌∷◌, ◌≢◌, ◌≡◌, refl, ◌==◌, eq_iff, false, arith, some, none, true,
}
use openmeeting_server.Base.Lists.{contains}
use openmeeting_server.UserRpc.{get_user_info}
use openmeeting_server.Meeting.Hosting.Rights.{Refused, outsider-Refused}
use openmeeting_server.Storage.Invalidation.{Tried, update-invalidates}
use openmeeting_server.Storage.Key.{get_meeting_info_key}
use openmeeting_server.Storage.Meta.{max_retry_times}
use openmeeting_server.Meeting.Convert.Update.Meaning.{
  set_all, with_setting, with_repeat_info, with_main_fields, get_db_update_data-meaning,
}
use openmeeting_server.Meeting.Convert.Update.{get_db_update_data}
use openmeeting_server.Meeting.Joining.{join_meeting, room_meta_data}
use openmeeting_server.Meeting.Permission.{check_user_in_meeting}
use openmeeting_server.Meeting.Hosting.{
  modify_meeting_participant_nick_name, remove_participants, set_meeting_host_info,
}
use openmeeting_server.Meeting.Joining.Admission.{
  seen, join_meeting_wrong_password, join_meeting_twice,
}
use openmeeting_server.Env
use openmeeting_server.Model
use openmeeting_server.Env.{Env, start, writes}
use openmeeting_server.Meeting.Ending.Rights.{end_meeting_denied}
use openmeeting_server.Meeting.Ending.{end_meeting, host_or_creator}
use openmeeting_server.Storage.{take_with_error, update}
use openmeeting_server.LiveKit.{get_room_data, get_room}
use openmeeting_server.Meeting.Requests.{
  EndMeetingReq, JoinMeetingReq, end_type, UpdateMeetingRequest,
}
use openmeeting_server.Result.{coded, err, ok}
use openmeeting_server.Constants.{
  meeting_auth_check_error, meeting_password_error, meeting_user_limit_error,
}
use openmeeting_server.Tests.Redis.{sample-RunsOnce}
use Sample.{sample, participants, db_info, meta_data, user, room}

distinct : (a b : String) → (a == b) ≡ false → a ≢ b
distinct a b h e = ground (arith, eq_iff a b)

abbrev end_req : EndMeetingReq
end_req = record { meeting_id = "m1"; user_id = "guest"; end_type = end_type }

end_meeting_denied_example :
    ((end_meeting sample end_req start).0 ≡ err (coded meeting_auth_check_error))
    × (writes (end_meeting sample end_req start).1.calls ≡ writes [])
unfolding take_with_error get_room_data host_or_creator
end_meeting_denied_example =
    end_meeting_denied sample end_req start db_info refl (distinct "creator" "guest" refl)
      (distinct "host" "guest" refl)

abbrev join_req : JoinMeetingReq
join_req = record { meeting_id = "m1"; user_id = "guest"; password = "wrong" }

join_meeting_wrong_password_example :
    (join_meeting sample join_req start ≡ (
      err (coded meeting_password_error),
      (room_meta_data sample db_info room (seen sample join_req start)).1,
    ))
    × (writes (room_meta_data sample db_info room (seen sample join_req start)).1.calls ≡ writes [])
unfolding take_with_error get_user_info check_user_in_meeting contains get_room room_meta_data
join_meeting_wrong_password_example =
    join_meeting_wrong_password sample join_req start (user "guest") db_info refl refl room
      meta_data refl refl refl (distinct "guest" "host" refl) (distinct "guest" "creator" refl)
      (distinct "wrong" "secret" refl)

abbrev again_req : JoinMeetingReq
again_req = record { meeting_id = "m1"; user_id = "host"; password = "secret" }

join_meeting_twice_example :
    ((join_meeting sample again_req start).0 ≡ err (coded meeting_user_limit_error))
    × (writes (join_meeting sample again_req start).1.calls ≡ writes [])
unfolding take_with_error get_user_info check_user_in_meeting
join_meeting_twice_example =
    join_meeting_twice sample again_req start (user "host") db_info refl refl (room ∷ []) [] [] room
      (λ name. participants ("host" ∷ [])) refl (λ h name. refl) refl refl

outsider-Refused_example :
    Refused
      (modify_meeting_participant_nick_name sample (record {
        meeting_id = "m1";
        user_id = "guest";
        participant_user_id = "host";
        nickname = "X";
      }))
      start
    × Refused
        (remove_participants sample
          (record { meeting_id = "m1"; user_id = "guest"; participant_user_ids = "host" ∷ [] }))
        start
    × Refused
        (set_meeting_host_info sample (record {
          meeting_id = "m1";
          user_id = "guest";
          host_user_id = some "guest";
          co_host_user_ids = "guest" ∷ [];
        }))
        start
unfolding get_room_data
outsider-Refused_example =
    outsider-Refused sample "m1" "guest" start meta_data refl (distinct "host" "guest" refl)
      (distinct "creator" "guest" refl) "host" "X" ("host" ∷ []) ("guest" ∷ []) (some "guest")

update-invalidates_example :
    (sample.update_meeting_answer [] "m1" (Env.title "t" ∷ []) ≡ ok tt)
    × Tried sample
        (get_meeting_info_key "m1")
        max_retry_times
        (Env.update_meeting "m1" (Env.title "t" ∷ []) ∷ [])
        (update sample "m1" (Env.title "t" ∷ []) start).1
unfolding update
update-invalidates_example =
    update-invalidates sample "m1" (Env.title "t") [] start sample-RunsOnce refl

abbrev no_update : UpdateMeetingRequest
no_update = record {
  meeting_id = "m1";
  title = some "new";
  scheduled_time = none;
  meeting_duration = none;
  password = none;
  time_zone = none;
  repeat_info = none;
  can_participants_enable_camera = none;
  can_participants_unmute_microphone = none;
  can_participants_share_screen = none;
  disable_camera_on_join = none;
  disable_microphone_on_join = none;
  can_participant_join_meeting_early = none;
  audio_encouragement = none;
  lock_meeting = some true;
  video_mirroring = none;
}

get_db_update_data-meaning_example :
    set_all (get_db_update_data sample db_info no_update) db_info
    ≡ with_setting sample no_update db_info.setting
        (with_repeat_info none (with_main_fields no_update db_info))
get_db_update_data-meaning_example = get_db_update_data-meaning sample db_info no_update

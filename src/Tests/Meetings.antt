-- ===== src/Tests/Meetings.antt =====
-- The theorems on personal settings, lists, schedules and streams at a concrete environment.
use openmeeting_server.Tests.Sample.{utc}
use openmeeting_server.Base.{[], ◌∷◌, ◌≡◌, refl, false, arith, ◌<◌, some, none, true, ◌+◌, ◌*◌, ℕ}
use openmeeting_server.Meeting.Personal.Entries.{with_personal}
use openmeeting_server.Meeting.Permission.{check_user_enable_camera}
use openmeeting_server.Wire.{no_setting}
use openmeeting_server.Meeting.Personal.{self_personal_data, participant_personal_data}
use openmeeting_server.Meeting.Personal.Limits.{host_limit_lasts}
use openmeeting_server.Base.Lists.{contains}
use openmeeting_server.Base.Int.{pos}
use openmeeting_server.Meeting.Schedule.Refresh.{end_time, refresh_non_repeat_meeting}
use openmeeting_server.Meeting.Schedule.Refresh.Status.{refresh_non_repeat_lem}
use openmeeting_server.Meeting.Notification.{broadcast_users}
use openmeeting_server.Meeting.Notification.Broadcast.{broadcast_users_all}
use openmeeting_server.Calendar.{Time, unix, before}
use openmeeting_server.Calendar.Steps.{Fixed}
use openmeeting_server.Meeting.Schedule.Next.{next_in_location, enough_fuel}
use openmeeting_server.Meeting.Schedule.Next.Days.{
  second, later, epoch, daily, next_in_location-days,
}
use openmeeting_server.Env
use openmeeting_server.Model
use openmeeting_server.Env.{Env, start, writes}
use openmeeting_server.LiveKit.{get_room_data}
use openmeeting_server.Callback.{on_room_participant_disconnected}
use openmeeting_server.Callback.Succession.{Outcome, on_room_participant_disconnected-Outcome}
use openmeeting_server.Meeting.Requests.{
  SetPersonalMeetingSettingsReq, Context, OperateRoomAllStreamReq,
}
use openmeeting_server.Result.{ok}
use openmeeting_server.Constants.{repeat_daily}
use openmeeting_server.Tests.Sample.{sample, db_info, meta_data}

abbrev off_req : SetPersonalMeetingSettingsReq
off_req = record {
  meeting_id = "m1";
  user_id = "creator";
  camera_on_entry = some false;
  microphone_on_entry = none;
}

abbrev on_req : SetPersonalMeetingSettingsReq
on_req = record {
  meeting_id = "m1";
  user_id = "creator";
  camera_on_entry = some true;
  microphone_on_entry = none;
}

host_limit_lasts_example :
    check_user_enable_camera no_setting (
      self_personal_data
        (with_personal meta_data (participant_personal_data meta_data off_req))
        on_req)
    ≡ false
host_limit_lasts_example = host_limit_lasts meta_data no_setting off_req on_req refl refl

on_room_participant_disconnected-Outcome_example :
    Outcome sample "m1" "host"
      (ok meta_data)
      (Env.remove_participant "m1" "host" ∷ [])
      (Env.update_room_metadata "m1" "META" ∷ Env.remove_participant "m1" "host" ∷ [])
unfolding on_room_participant_disconnected get_room_data writes
on_room_participant_disconnected-Outcome_example =
    on_room_participant_disconnected-Outcome sample "m1" "host" start

refresh_non_repeat_lem_example : (refresh_non_repeat_meeting sample db_info start).0 ≡ ok none
unfolding end_time
refresh_non_repeat_lem_example = refresh_non_repeat_lem sample db_info start

broadcast_users_all_example :
    contains "b" (broadcast_users ("a" ∷ "b" ∷ []) ("b" ∷ []) ("a" ∷ []))
    ≡ contains "b" ("a" ∷ "b" ∷ [])
broadcast_users_all_example = broadcast_users_all ("a" ∷ "b" ∷ []) ("b" ∷ []) ("a" ∷ []) "b"

abbrev ctx : Context
ctx = record { incoming = none; op_user_id_key = "opUserID"; op_user_id = "host" }

abbrev mute_req : OperateRoomAllStreamReq
mute_req = record {
  meeting_id = "m1";
  operator_user_id = "host";
  camera_on_entry = some false;
  microphone_on_entry = some false;
}

utc-Fixed : Fixed utc (pos 0)
utc-Fixed = record { always = λ s. refl; east = omega arith; west = omega arith }

abbrev daily_info : Model.MeetingInfo
daily_info = record db_info { repeat_type = repeat_daily }

next_in_location-days_example :
    let now : Time = second 0 63900000000 in
    let time : ℕ → Time = λ k. second 0 (later (86400 * 1) k (1700000000 + epoch)) in
    (k : ℕ) × (next_in_location (enough_fuel daily_info now) utc daily_info now
      ≡ some (unix (time k)))
    × (before now (time k) ≡ true)
    × ((j : ℕ) → j < k → before now (time j) ≡ false)
next_in_location-days_example =
    next_in_location-days utc-Fixed daily_info 1 1700000000 63900000000 0 (daily refl) refl refl
      (omega arith) (omega arith) (omega arith)

-- ===== src/Meeting/Convert/Update.antt =====
-- `getDBUpdateData` of internal/rpc/meeting/convert.go: what an update request writes. The Go map is a
-- list of its entries; each key is written by one of the three steps only.
pub mod Meaning
use openmeeting_server.Base.{
  String, List, [], ◌∷◌, ◌++◌, Bool, true, false, ◌||◌, Option, none, some, ◌==◌, if◌then◌else◌,
}
use openmeeting_server.Base.Int.{pos}
use openmeeting_server.Constants.{repeat_custom}
use openmeeting_server.Result.{Result, ok, err}
use openmeeting_server.Model.{MeetingInfo}
use openmeeting_server.Wire.{MeetingSetting, no_setting, MeetingRepeatInfo}
use openmeeting_server.Env.{Env, Change}
use openmeeting_server.Meeting.Requests.{UpdateMeetingRequest}
use openmeeting_server.Meeting.Convert.Days.{get_db_repeat_day_of_week}

-- `updateField`: an absent value writes nothing.
pub update_field : {A : Type 0} → (A → Change) → Option A → List Change
update_field key none = []
update_field key (some v) = key v ∷ []

unfoldable pub update_main_fields : UpdateMeetingRequest → List Change
unfolding update_field
update_main_fields req =
    update_field Change.title req.title
    ++ (update_field Change.scheduled_time req.scheduled_time
        ++ (update_field Change.meeting_duration req.meeting_duration
            ++ (update_field Change.password req.password
                ++ update_field Change.time_zone req.time_zone)))

update_custom : MeetingRepeatInfo → List Change
unfolding get_db_repeat_day_of_week
update_custom repeat_info =
    if repeat_info.repeat_type == repeat_custom
    then Change.uint_type repeat_info.uint_type
      ∷ Change.interval repeat_info.interval
      ∷ Change.repeat_day_of_week (get_db_repeat_day_of_week repeat_info.repeat_days_of_week)
      ∷ []
    else Change.uint_type "" ∷ Change.interval (pos 0) ∷ Change.repeat_day_of_week [] ∷ []

unfoldable pub update_repeat_info : Option MeetingRepeatInfo → List Change
unfolding update_custom
update_repeat_info none = []
update_repeat_info (some repeat_info) =
    Change.end_date repeat_info.end_date
    ∷ Change.repeat_times repeat_info.repeat_times
    ∷ Change.repeat_type repeat_info.repeat_type
    ∷ update_custom repeat_info

-- `updateSettingField`: the value of the field after it.
pub new_value : Bool → Option Bool → Bool
new_value old none = old
new_value old (some v) = v

is_given : Option Bool → Bool
is_given none = false
is_given (some v) = true

unfoldable pub updated_setting : MeetingSetting → UpdateMeetingRequest → MeetingSetting
unfolding new_value
updated_setting setting req = record {
  can_participants_enable_camera =
      new_value setting.can_participants_enable_camera req.can_participants_enable_camera;
  can_participants_unmute_microphone =
      new_value setting.can_participants_unmute_microphone req.can_participants_unmute_microphone;
  can_participants_share_screen =
      new_value setting.can_participants_share_screen req.can_participants_share_screen;
  disable_camera_on_join = new_value setting.disable_camera_on_join req.disable_camera_on_join;
  disable_microphone_on_join =
      new_value setting.disable_microphone_on_join req.disable_microphone_on_join;
  can_participant_join_meeting_early =
      new_value setting.can_participant_join_meeting_early req.can_participant_join_meeting_early;
  audio_encouragement = new_value setting.audio_encouragement req.audio_encouragement;
  lock_meeting = new_value setting.lock_meeting req.lock_meeting;
  video_mirroring = new_value setting.video_mirroring req.video_mirroring;
}

-- The flag `updateSetting`.
unfoldable pub has_setting_field : UpdateMeetingRequest → Bool
unfolding is_given
has_setting_field req =
    is_given req.can_participants_enable_camera
    || is_given req.can_participants_unmute_microphone
    || is_given req.can_participants_share_screen
    || is_given req.disable_camera_on_join
    || is_given req.disable_microphone_on_join
    || is_given req.can_participant_join_meeting_early
    || is_given req.audio_encouragement
    || is_given req.lock_meeting
    || is_given req.video_mirroring

unfoldable pub setting_change : Result String → List Change
setting_change (ok update_string) = Change.setting update_string ∷ []
setting_change (err e) = []

module _ (env : Env) where
  -- The stored setting, or the zero one if none is stored.
  unfoldable pub stored_setting : String → Result MeetingSetting
  stored_setting text = if text == "" then ok no_setting else env.unmarshal_setting text

  unfoldable pub marshalled : Result MeetingSetting → UpdateMeetingRequest → List Change
  unfolding updated_setting has_setting_field setting_change
  marshalled (err e) req = []
  marshalled (ok setting) req =
      if has_setting_field req
      then setting_change (env.marshal_setting (some (updated_setting setting req)))
      else []

  unfoldable pub update_settings : MeetingInfo → UpdateMeetingRequest → List Change
  unfolding stored_setting marshalled
  update_settings info req = marshalled (stored_setting info.setting) req

  unfoldable pub get_db_update_data : MeetingInfo → UpdateMeetingRequest → List Change
  unfolding update_main_fields update_repeat_info update_settings
  get_db_update_data info req =
      update_main_fields req ++ (update_repeat_info req.repeat_info ++ update_settings info req)

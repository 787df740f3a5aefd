-- ===== src/Meeting/Convert/Update/Meaning.antt =====
-- What the update data of `getDBUpdateData` makes of the stored meeting, under MongoDB's `$set`.
use openmeeting_server.Base.{
  Bool-cases, inl, inr, String, List, [], ◌∷◌, ◌++◌, ◌≡◌, refl, ◌∙◌, ap, Option, none, some, ◌==◌,
  arith, if◌then◌else◌, Bool, true, not, false,
}
use openmeeting_server.Base.Int.{pos}
use openmeeting_server.Constants.{repeat_custom}
use openmeeting_server.Result.{Result, ok, err}
use openmeeting_server.Model.{MeetingInfo}
use openmeeting_server.Wire.{MeetingSetting, MeetingRepeatInfo, no_setting}
use openmeeting_server.Env.{Env, Change}
use openmeeting_server.Meeting.Requests.{UpdateMeetingRequest}
use openmeeting_server.Meeting.Convert.Days.{get_db_repeat_day_of_week}
use openmeeting_server.Meeting.Convert.Update.{
  update_field, update_main_fields, update_repeat_info, updated_setting, has_setting_field,
  update_settings, get_db_update_data, setting_change, marshalled, stored_setting, is_given,
}

-- `$set` of one key, by the field's bson name.
abbrev set_one : Change → MeetingInfo → MeetingInfo
set_one (Change.title v) info = record info { title = v }
set_one (Change.status v) info = record info { status = v }
set_one (Change.password v) info = record info { password = v }
set_one (Change.time_zone v) info = record info { time_zone = v }
set_one (Change.repeat_type v) info = record info { repeat_type = v }
set_one (Change.uint_type v) info = record info { uint_type = v }
set_one (Change.setting v) info = record info { setting = v }
set_one (Change.scheduled_time v) info = record info { scheduled_time = v }
set_one (Change.meeting_duration v) info = record info { meeting_duration = v }
set_one (Change.end_date v) info = record info { end_date = v }
set_one (Change.repeat_times v) info = record info { repeat_times = v }
set_one (Change.interval v) info = record info { interval = v }
set_one (Change.repeat_day_of_week v) info = record info { repeat_day_of_week = v }

abbrev pub set_all : List Change → MeetingInfo → MeetingInfo
set_all [] info = info
set_all (c ∷ cs) info = set_all cs (set_one c info)

set_all-append :
    (cs ds : List Change) (info : MeetingInfo)
    → set_all (cs ++ ds) info ≡ set_all ds (set_all cs info)
set_all-append [] ds info = refl
set_all-append (c ∷ cs) ds info = set_all-append cs ds (set_one c info)

abbrev or_old {ℓ} : {A : Type ℓ} → Option A → A → A
or_old none old = old
or_old (some v) old = v

-- The five plain fields: the requested value, or the stored one.
abbrev pub with_main_fields : UpdateMeetingRequest → MeetingInfo → MeetingInfo
with_main_fields req info = record info {
  title = or_old req.title info.title;
  scheduled_time = or_old req.scheduled_time info.scheduled_time;
  meeting_duration = or_old req.meeting_duration info.meeting_duration;
  password = or_old req.password info.password;
  time_zone = or_old req.time_zone info.time_zone;
}

-- The six fields of the repetition, all together or not at all; what only a custom repetition has is
-- cleared for any other.
abbrev pub with_repeat_info : Option MeetingRepeatInfo → MeetingInfo → MeetingInfo
with_repeat_info none info = info
with_repeat_info (some r) info =
    let custom = r.repeat_type == repeat_custom in
    record info {
      end_date = r.end_date;
      repeat_times = r.repeat_times;
      repeat_type = r.repeat_type;
      uint_type = if custom then r.uint_type else "";
      interval = if custom then r.interval else pos 0;
      repeat_day_of_week = if custom then get_db_repeat_day_of_week r.repeat_days_of_week else [];
    }

abbrev text_or : Result String → String → String
text_or (ok text) old = text
text_or (err e) old = old

-- The setting that is asked for: of each field the requested value, or the one before.
abbrev pub asked_setting : MeetingSetting → UpdateMeetingRequest → MeetingSetting
asked_setting old req = record {
  can_participants_enable_camera =
      or_old req.can_participants_enable_camera old.can_participants_enable_camera;
  can_participants_unmute_microphone =
      or_old req.can_participants_unmute_microphone old.can_participants_unmute_microphone;
  can_participants_share_screen =
      or_old req.can_participants_share_screen old.can_participants_share_screen;
  disable_camera_on_join = or_old req.disable_camera_on_join old.disable_camera_on_join;
  disable_microphone_on_join = or_old req.disable_microphone_on_join old.disable_microphone_on_join;
  can_participant_join_meeting_early =
      or_old req.can_participant_join_meeting_early old.can_participant_join_meeting_early;
  audio_encouragement = or_old req.audio_encouragement old.audio_encouragement;
  lock_meeting = or_old req.lock_meeting old.lock_meeting;
  video_mirroring = or_old req.video_mirroring old.video_mirroring;
}

abbrev all_absent : List (Option Bool) → Bool
all_absent [] = true
all_absent (none ∷ fields) = all_absent fields
all_absent (some v ∷ fields) = false

-- No field of the setting is given.
abbrev pub no_setting_field : UpdateMeetingRequest → Bool
no_setting_field req = all_absent (
    req.can_participants_enable_camera ∷ req.can_participants_unmute_microphone
    ∷ req.can_participants_share_screen ∷ req.disable_camera_on_join
    ∷ req.disable_microphone_on_join ∷ req.can_participant_join_meeting_early
    ∷ req.audio_encouragement ∷ req.lock_meeting ∷ req.video_mirroring ∷ [])

abbrev setting_text : Env → Result MeetingSetting → UpdateMeetingRequest → String → String
setting_text env (err e) req old = old
setting_text env (ok setting) req old =
    if no_setting_field req
    then old
    else text_or (env.marshal_setting (some (asked_setting setting req))) old

-- The setting: the stored one with the requested fields, if there are any. It stays as it was when the
-- stored one cannot be decoded or the new one cannot be encoded.
abbrev pub with_setting : Env → UpdateMeetingRequest → String → MeetingInfo → MeetingInfo
with_setting env req old info =
    let stored = if old == "" then ok no_setting else env.unmarshal_setting old in
    record info { setting = setting_text env stored req old }

updated_setting_lem :
    (old : MeetingSetting) (req : UpdateMeetingRequest)
    → updated_setting old req ≡ asked_setting old req
unfolding updated_setting
updated_setting_lem old req = ground arith

has_setting_field_lem :
    (req : UpdateMeetingRequest) → has_setting_field req ≡ not (no_setting_field req)
unfolding has_setting_field is_given
has_setting_field_lem req = ground arith

set_update_field :
    {A : Type 0} (key : A → Change) (value : Option A) (info : MeetingInfo)
    → set_all (update_field key value) info
      ≡ (elim value [ none ↦ info | some v ↦ set_one (key v) info ])
unfolding update_field
set_update_field key none info = refl
set_update_field key (some v) info = refl

set_main :
    (req : UpdateMeetingRequest) (info : MeetingInfo)
    → set_all (update_main_fields req) info ≡ with_main_fields req info
unfolding update_main_fields
set_main req info = ground arith

set_repeat :
    (r : Option MeetingRepeatInfo) (info : MeetingInfo)
    → set_all (update_repeat_info r) info ≡ with_repeat_info r info
unfolding update_repeat_info
set_repeat none info = refl
set_repeat (some r) info = ground arith

set_text :
    (text : Result String) (old : String) (m : MeetingInfo)
    → m.setting ≡ old
    → set_all (setting_change text) m ≡ record m { setting = text_or text old }
unfolding setting_change
set_text (ok text) old m e = refl
set_text (err x) old m e = ap (λ s. record m { setting = s }) e

set_marshalled :
    (env : Env) (stored : Result MeetingSetting) (req : UpdateMeetingRequest) (old : String)
    → (m : MeetingInfo) → m.setting ≡ old
    → set_all (marshalled env stored req) m ≡ record m { setting = setting_text env stored req old }
unfolding marshalled
set_marshalled env (err x) req old m e = ap (λ s. record m { setting = s }) e
set_marshalled env (ok setting) req old m e = elim (Bool-cases (no_setting_field req)) [
  | inl absent ↦ rw (has_setting_field_lem req, absent) (ap (λ s. record m { setting = s }) e)
  | inr given ↦
      rw (has_setting_field_lem req, given, updated_setting_lem setting req)
        (set_text (env.marshal_setting (some (asked_setting setting req))) old m e)
]

setting-with_repeat_info :
    (r : Option MeetingRepeatInfo) (m : MeetingInfo) → (with_repeat_info r m).setting ≡ m.setting
setting-with_repeat_info none m = refl
setting-with_repeat_info (some r) m = refl

-- The update document of getDBUpdateData, applied to the stored meeting, gives the plain fields and
-- the repetition that the request asks for, sets of the stored setting the nine fields that are
-- given, and leaves all else as it was; the setting stays as it was also when the stored one cannot
-- be decoded or the new one cannot be encoded.
pub get_db_update_data-meaning :
    (env : Env) (info : MeetingInfo) (req : UpdateMeetingRequest)
    → set_all (get_db_update_data env info req) info
      ≡ with_setting env req info.setting
          (with_repeat_info req.repeat_info (with_main_fields req info))
unfolding get_db_update_data update_settings stored_setting
get_db_update_data-meaning env info req =
    let main = update_main_fields req in
    let repetition = update_repeat_info req.repeat_info in
    let settings = update_settings env info req in
    let m = with_repeat_info req.repeat_info (with_main_fields req info) in
    set_all-append main (repetition ++ settings) info
    ∙ (set_all-append repetition settings (set_all main info)
        ∙ (ap (λ i. set_all settings (set_all repetition i)) (set_main req info)
            ∙ (ap (λ i. set_all settings i) (set_repeat req.repeat_info (with_main_fields req info))
                ∙ set_marshalled env
                    (if info.setting == ""
                      then ok no_setting
                      else env.unmarshal_setting info.setting)
                    req info.setting m
                    (setting-with_repeat_info req.repeat_info (with_main_fields req info)))))

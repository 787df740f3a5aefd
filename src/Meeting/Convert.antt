-- ===== src/Meeting/Convert.antt =====
-- internal/rpc/meeting/convert.go: requests into stored meetings, stored meetings into room metadata.
pub mod Days
pub mod Merge
pub mod Update
use openmeeting_server.Base.{String, [], ◌∷◌, true, false, Option, none, some, ◌==◌, if◌then◌else◌}
use openmeeting_server.Base.Int.{ℤ, pos}
use openmeeting_server.Constants.{scheduled, in_progress, repeat_custom}
use openmeeting_server.Result.{Result, ok, err}
use openmeeting_server.Model
use openmeeting_server.Wire
use openmeeting_server.Wire.{
  no_setting, MeetingRepeatInfo, CreatorDefinedMeetingInfo, SystemGeneratedMeetingInfo,
  MeetingInfoSetting, PersonalData, MeetingMetadata, UserInfo, ParticipantMetaData,
}
use openmeeting_server.Env
use openmeeting_server.Env.{◌>>=◌, ◌>>◌, Env, Exec, pure, lift, ask, attempt}
use openmeeting_server.UserRpc.{get_user_info}
use openmeeting_server.Storage.{generate_meeting_id}
use openmeeting_server.LiveKit.{get_room_data}
use openmeeting_server.Meeting.Requests.{BookMeetingReq, CreateImmediateMeetingReq}
use Days.{get_db_repeat_day_of_week, get_client_repeat_day_of_week}

abbrev pub get_host_user_id : MeetingMetadata → String
get_host_user_id metadata = metadata.detail.info.creator_defined_meeting.host_user_id

abbrev pub get_creator_user_id : MeetingMetadata → String
get_creator_user_id metadata = metadata.detail.info.system_generated.creator_user_id

unfoldable pub generate_participant_meta_data : UserInfo → ParticipantMetaData
generate_participant_meta_data user_info = record {
  user_info = record {
    user_id = user_info.user_id;
    nickname = user_info.nickname;
    account = user_info.account;
  };
}

unfoldable pub generate_default_personal_data : String → PersonalData
generate_default_personal_data user_id = record {
  user_id = user_id;
  personal_setting = record { camera_on_entry = false; microphone_on_entry = false };
  limit_setting = record { camera_on_entry = true; microphone_on_entry = true };
}

-- The fields that only a booking with a repetition sets.
add_repeat_info : Option MeetingRepeatInfo → Model.MeetingInfo → Model.MeetingInfo
unfolding get_db_repeat_day_of_week
add_repeat_info none info = info
add_repeat_info (some repeat_info) info =
    let basic = record info {
      end_date = repeat_info.end_date;
      repeat_times = repeat_info.repeat_times;
      repeat_type = repeat_info.repeat_type;
    } in
    if repeat_info.repeat_type == repeat_custom
    then record basic {
      uint_type = repeat_info.uint_type;
      interval = repeat_info.interval;
      repeat_day_of_week = get_db_repeat_day_of_week repeat_info.repeat_days_of_week;
    }
    else basic

-- A `SystemGeneratedMeetingInfo` and a `CreatorDefinedMeetingInfo` from a stored meeting.
unfoldable pub system_info : Model.MeetingInfo → UserInfo → SystemGeneratedMeetingInfo
system_info info user_info = record {
  creator_user_id = info.creator_user_id;
  status = info.status;
  start_time = info.start_time;
  meeting_id = info.meeting_id;
  creator_nickname = user_info.nickname;
}

unfoldable pub creator_info : Model.MeetingInfo → CreatorDefinedMeetingInfo
creator_info info = record {
  title = info.title;
  scheduled_time = info.scheduled_time;
  meeting_duration = info.meeting_duration;
  password = info.password;
  time_zone = info.time_zone;
  host_user_id = info.creator_user_id;
  co_host_user_id = [];
}

unfoldable pub repeat_info_of : Model.MeetingInfo → MeetingRepeatInfo
unfolding get_client_repeat_day_of_week
repeat_info_of info = record {
  end_date = info.end_date;
  repeat_times = info.repeat_times;
  repeat_type = info.repeat_type;
  uint_type = info.uint_type;
  interval = info.interval;
  repeat_days_of_week = get_client_repeat_day_of_week info.repeat_day_of_week;
}

-- The room's host and co-hosts take the place of the stored ones, if the room can be read.
unfoldable pub with_hosts_of : Result MeetingMetadata → MeetingInfoSetting → MeetingInfoSetting
with_hosts_of (err e) detail = detail
with_hosts_of (ok meta_data) detail =
    let live = meta_data.detail.info.creator_defined_meeting in
    record detail {
      info = record {
        system_generated = detail.info.system_generated;
        creator_defined_meeting = record detail.info.creator_defined_meeting {
          host_user_id = live.host_user_id;
          co_host_user_id = live.co_host_user_id;
        };
      };
    }

module _ (env : Env) where
  unfoldable pub generate_meeting_db_data4_booking : BookMeetingReq → Exec Model.MeetingInfo
  unfolding generate_meeting_id add_repeat_info
  generate_meeting_db_data4_booking req = do
    meeting_id ← generate_meeting_id env
    setting ← lift (env.marshal_setting req.setting)
    let defined = req.creator_defined_meeting_info
    pure (
        add_repeat_info req.repeat_info (record {
          meeting_id = meeting_id;
          title = defined.title;
          start_time = defined.scheduled_time;
          scheduled_time = defined.scheduled_time;
          meeting_duration = defined.meeting_duration;
          password = defined.password;
          time_zone = defined.time_zone;
          status = scheduled;
          creator_user_id = req.creator_user_id;
          end_date = pos 0;
          repeat_times = pos 0;
          repeat_type = "";
          uint_type = "";
          interval = pos 0;
          repeat_day_of_week = [];
          setting = setting;
        }))

  -- `timeutil.GetCurrentTimestampBySecond`
  unfoldable pub current_timestamp : Exec ℤ
  current_timestamp = ask Env.current_time (λ h. ok (env.timestamp_answer h))

  unfoldable pub generate_meeting_db_data4_create :
      CreateImmediateMeetingReq → Exec Model.MeetingInfo
  unfolding generate_meeting_id current_timestamp
  generate_meeting_db_data4_create req = do
    meeting_id ← generate_meeting_id env
    setting ← lift (env.marshal_setting req.setting)
    now ← current_timestamp
    let defined = req.creator_defined_meeting_info
    pure (record {
      meeting_id = meeting_id;
      title = defined.title;
      start_time = now;
      scheduled_time = defined.scheduled_time;
      meeting_duration = defined.meeting_duration;
      password = defined.password;
      time_zone = "";
      status = in_progress;
      creator_user_id = req.creator_user_id;
      end_date = pos 0;
      repeat_times = pos 0;
      repeat_type = "";
      uint_type = "";
      interval = pos 0;
      repeat_day_of_week = [];
      setting = setting;
    })

  unfoldable pub generate_meeting_meta_data : Model.MeetingInfo → Exec MeetingMetadata
  unfolding get_user_info generate_default_personal_data system_info creator_info repeat_info_of
  generate_meeting_meta_data info = do
    user_info ← get_user_info env info.creator_user_id
    setting ←
        (if info.setting == "" then pure no_setting else lift (env.unmarshal_setting info.setting))
    pure (record {
      detail = record {
        info = record {
          system_generated = system_info info user_info;
          creator_defined_meeting = creator_info info;
        };
        setting = some setting;
        repeat_info = some (repeat_info_of info);
      };
      personal_data = generate_default_personal_data info.creator_user_id ∷ [];
    })

  unfoldable pub get_meeting_detail_setting : Model.MeetingInfo → Exec MeetingInfoSetting
  unfolding get_user_info get_room_data system_info creator_info repeat_info_of with_hosts_of
  get_meeting_detail_setting info = do
    user_info ← get_user_info env info.creator_user_id
    setting ←
        (if info.setting == ""
          then pure none
          else (do setting ← lift (env.unmarshal_setting info.setting); pure (some setting)))
    meta_data ← attempt (get_room_data env info.meeting_id)
    pure (
        with_hosts_of meta_data (record {
          info = record {
            system_generated = system_info info user_info;
            creator_defined_meeting = creator_info info;
          };
          setting = setting;
          repeat_info = some (repeat_info_of info);
        }))

  unfoldable pub generate_meeting_meta_data4_create :
      CreateImmediateMeetingReq → Model.MeetingInfo → Exec MeetingMetadata
  unfolding get_user_info generate_default_personal_data system_info
  generate_meeting_meta_data4_create req info = do
    user_info ← get_user_info env info.creator_user_id
    let defined = req.creator_defined_meeting_info
    pure (record {
      detail = record {
        info = record {
          system_generated = system_info info user_info;
          creator_defined_meeting = record {
            title = defined.title;
            scheduled_time = defined.scheduled_time;
            meeting_duration = defined.meeting_duration;
            password = defined.password;
            time_zone = "";
            host_user_id = req.creator_user_id;
            co_host_user_id = [];
          };
        };
        setting = req.setting;
        repeat_info = none;
      };
      personal_data = generate_default_personal_data req.creator_user_id ∷ [];
    })

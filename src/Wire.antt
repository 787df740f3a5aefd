-- ===== src/Wire.antt =====
-- The messages that the services exchange, with the fields that the program reads or writes. They are
-- generated from the protocol's own module; a message that the program always sets before it reads it
-- is a plain record, and one that it may leave nil is an `Option`.
use openmeeting_server.Base.{String, List, Bool, false, Option}
use openmeeting_server.Base.Int.{ℤ}

pub record MeetingSetting : Type 0 where
  pub can_participants_enable_camera : Bool
  pub can_participants_unmute_microphone : Bool
  pub can_participants_share_screen : Bool
  pub disable_camera_on_join : Bool
  pub disable_microphone_on_join : Bool
  pub can_participant_join_meeting_early : Bool
  pub audio_encouragement : Bool
  pub lock_meeting : Bool
  pub video_mirroring : Bool

-- The zero value of a setting.
abbrev pub no_setting : MeetingSetting
no_setting = record {
  can_participants_enable_camera = false;
  can_participants_unmute_microphone = false;
  can_participants_share_screen = false;
  disable_camera_on_join = false;
  disable_microphone_on_join = false;
  can_participant_join_meeting_early = false;
  audio_encouragement = false;
  lock_meeting = false;
  video_mirroring = false;
}

pub record MeetingRepeatInfo : Type 0 where
  pub end_date : ℤ
  pub repeat_times : ℤ
  pub repeat_type : String
  pub uint_type : String
  pub interval : ℤ
  pub repeat_days_of_week : List ℤ

pub record CreatorDefinedMeetingInfo : Type 0 where
  pub title : String
  pub scheduled_time : ℤ
  pub meeting_duration : ℤ
  pub password : String
  pub time_zone : String
  pub host_user_id : String
  pub co_host_user_id : List String

pub record SystemGeneratedMeetingInfo : Type 0 where
  pub creator_user_id : String
  pub status : String
  pub start_time : ℤ
  pub meeting_id : String
  pub creator_nickname : String

pub record MeetingInfo : Type 0 where
  pub system_generated : SystemGeneratedMeetingInfo
  pub creator_defined_meeting : CreatorDefinedMeetingInfo

pub record MeetingInfoSetting : Type 0 where
  pub info : MeetingInfo
  pub setting : Option MeetingSetting
  pub repeat_info : Option MeetingRepeatInfo

pub record PersonalMeetingSetting : Type 0 where
  pub camera_on_entry : Bool
  pub microphone_on_entry : Bool

pub record PersonalData : Type 0 where
  pub user_id : String
  pub personal_setting : PersonalMeetingSetting
  pub limit_setting : PersonalMeetingSetting

pub record MeetingMetadata : Type 0 where
  pub detail : MeetingInfoSetting
  pub personal_data : List PersonalData

-- `user.UserInfo`, and the `UserInfo` of a participant
pub record UserInfo : Type 0 where
  pub user_id : String
  pub nickname : String
  pub account : String

pub record ParticipantMetaData : Type 0 where
  pub user_info : UserInfo

-- The address and the token that a client joins with.
pub record LiveKit : Type 0 where
  pub token : String
  pub url : String

pub record UserOperationData : Type 0 where
  pub user_id : String
  pub camera_on_entry : Option Bool
  pub microphone_on_entry : Option Bool

pub data MessageType : Type 0 where
  meeting_host_data : String → String → String → MessageType
  stream_operate_data : List UserOperationData → MessageType
  kick_off_meeting_data : String → String → ℤ → String → MessageType

pub record NotifyMeetingData : Type 0 where
  pub operator_user_id : String
  pub message_type : MessageType

-- LiveKit's own records.
pub record Room : Type 0 where
  pub name : String
  pub sid : String
  pub metadata : String

pub record ParticipantInfo : Type 0 where
  pub identity : String
  pub metadata : String

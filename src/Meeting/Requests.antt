-- ===== src/Meeting/Requests.antt =====
-- The requests that the handlers take, with the fields that they read, and the request's context.
use openmeeting_server.Base.{String, List, Bool, Option}
use openmeeting_server.Base.Int.{ℤ}
use openmeeting_server.Wire.{MeetingSetting, MeetingRepeatInfo, CreatorDefinedMeetingInfo}

-- What a handler reads of its `context.Context`: the values that came with the call, and the operator
-- as the logging package finds it.
pub record Context : Type 0 where
  pub incoming : Option (String → List String)
  pub op_user_id_key : String
  pub op_user_id : String

pub record BookMeetingReq : Type 0 where
  pub creator_user_id : String
  pub creator_defined_meeting_info : CreatorDefinedMeetingInfo
  pub setting : Option MeetingSetting
  pub repeat_info : Option MeetingRepeatInfo

pub record CreateImmediateMeetingReq : Type 0 where
  pub creator_user_id : String
  pub creator_defined_meeting_info : CreatorDefinedMeetingInfo
  pub setting : Option MeetingSetting

pub record JoinMeetingReq : Type 0 where
  pub meeting_id : String
  pub user_id : String
  pub password : String

-- GetMeetingToken, LeaveMeeting and GetPersonalMeetingSettings
pub record UserInMeetingReq : Type 0 where
  pub meeting_id : String
  pub user_id : String

pub data MeetingEndType : Type 0 where
  end_type cancel_type : MeetingEndType
  unsupported : ℤ → MeetingEndType

pub record EndMeetingReq : Type 0 where
  pub meeting_id : String
  pub user_id : String
  pub end_type : MeetingEndType

-- A wrapped value that is absent is `none`.
pub record UpdateMeetingRequest : Type 0 where
  pub meeting_id : String
  pub title : Option String
  pub scheduled_time : Option ℤ
  pub meeting_duration : Option ℤ
  pub password : Option String
  pub time_zone : Option String
  pub repeat_info : Option MeetingRepeatInfo
  pub can_participants_enable_camera : Option Bool
  pub can_participants_unmute_microphone : Option Bool
  pub can_participants_share_screen : Option Bool
  pub disable_camera_on_join : Option Bool
  pub disable_microphone_on_join : Option Bool
  pub can_participant_join_meeting_early : Option Bool
  pub audio_encouragement : Option Bool
  pub lock_meeting : Option Bool
  pub video_mirroring : Option Bool

pub record SetPersonalMeetingSettingsReq : Type 0 where
  pub meeting_id : String
  pub user_id : String
  pub camera_on_entry : Option Bool
  pub microphone_on_entry : Option Bool

pub record OperateRoomAllStreamReq : Type 0 where
  pub meeting_id : String
  pub operator_user_id : String
  pub camera_on_entry : Option Bool
  pub microphone_on_entry : Option Bool

pub record ModifyNickNameReq : Type 0 where
  pub meeting_id : String
  pub user_id : String
  pub participant_user_id : String
  pub nickname : String

pub record RemoveMeetingParticipantsReq : Type 0 where
  pub meeting_id : String
  pub user_id : String
  pub participant_user_ids : List String

pub record SetMeetingHostInfoReq : Type 0 where
  pub meeting_id : String
  pub user_id : String
  pub host_user_id : Option String
  pub co_host_user_ids : List String

pub record CleanPreviousMeetingsReq : Type 0 where
  pub user_id : String
  pub reason : String
  pub reason_code : ℤ

-- ===== src/Router/Handlers.antt =====
-- internal/api/user.go and meeting.go: the handlers of the HTTP API. A handler takes the text of the
-- request, reads the message from it, asks the service, and answers with its response: this is what
-- `a2r.Call` does with the procedure that it is given. An error is answered as such.
use openmeeting_server.Base.{String, List, Option}
use openmeeting_server.Wire.{UserInfo, MeetingInfoSetting, LiveKit, PersonalMeetingSetting}
use openmeeting_server.Result.{Result}
use openmeeting_server.Env.{Env, Exec, pure, lift, ◌>>=◌}
use openmeeting_server.Rpc.{remote}
use openmeeting_server.Token.{Token}
use openmeeting_server.Meeting.Requests.{
  Context, BookMeetingReq, CreateImmediateMeetingReq, JoinMeetingReq, UserInMeetingReq,
  EndMeetingReq, UpdateMeetingRequest, SetPersonalMeetingSettingsReq, OperateRoomAllStreamReq,
  ModifyNickNameReq, RemoveMeetingParticipantsReq, SetMeetingHostInfoReq,
}
use openmeeting_server.Meeting.Booking.{book_meeting, create_immediate_meeting}
use openmeeting_server.Meeting.Joining.{join_meeting, get_meeting_token, leave_meeting}
use openmeeting_server.Meeting.Ending.{end_meeting}
use openmeeting_server.Meeting.Reading.{get_meetings, get_meeting}
use openmeeting_server.Meeting.Updating.{update_meeting}
use openmeeting_server.Meeting.Personal.{
  get_personal_meeting_settings, set_personal_meeting_settings,
}
use openmeeting_server.Meeting.Streams.{Lists, operate_room_all_stream}
use openmeeting_server.Meeting.Hosting.{
  Removed, modify_meeting_participant_nick_name, remove_participants, set_meeting_host_info,
}
use openmeeting_server.UserService.{
  UserLoginReq, UserLoginResp, user_register, user_login, get_designate_users, user_logout,
}

-- `GetMeetingsReq`
pub record GetMeetingsReq : Type 0 where
  pub status : List String
  pub user_id : String

-- The messages of the requests, read from their texts
pub record Decoder : Type 0 where
  pub register_req : String → Result (List UserInfo)
  pub login_req : String → Result UserLoginReq
  pub user_ids_req : String → Result (List String)
  pub user_id_req : String → Result String
  pub book_req : String → Result BookMeetingReq
  pub create_req : String → Result CreateImmediateMeetingReq
  pub join_req : String → Result JoinMeetingReq
  pub in_meeting_req : String → Result UserInMeetingReq
  pub update_req : String → Result UpdateMeetingRequest
  pub meeting_id_req : String → Result String
  pub meetings_req : String → Result GetMeetingsReq
  pub end_req : String → Result EndMeetingReq
  pub set_personal_req : String → Result SetPersonalMeetingSettingsReq
  pub operate_req : String → Result OperateRoomAllStreamReq
  pub modify_req : String → Result ModifyNickNameReq
  pub remove_req : String → Result RemoveMeetingParticipantsReq
  pub host_req : String → Result SetMeetingHostInfoReq

pub data Reply : Type 0 where
  no_content : Reply
  login : UserLoginResp → Reply
  users : List UserInfo → Reply
  meeting_detail : MeetingInfoSetting → Reply
  created_meeting : MeetingInfoSetting × LiveKit → Reply
  live_kit : LiveKit → Reply
  meeting_token : String × LiveKit → Reply
  details : List MeetingInfoSetting → Reply
  personal : Option PersonalMeetingSetting → Reply
  lists : Lists → Reply
  removed : Removed → Reply

module _ (env : Env) (codec : Decoder) (t : Token) where
  -- `a2r.Call`
  unfoldable pub call :
      {A B : Type 0}
      → String
      → (String → Result A)
      → (A → Exec B)
      → (B → Reply)
      → String
      → Exec Reply
  unfolding remote
  call name read procedure reply body = do
    req ← lift (read body)
    answer ← remote env name (procedure req)
    pure (reply answer)

  unfoldable pub on_user_register : Context → String → Exec Reply
  unfolding call
  on_user_register c = call "UserRegister" codec.register_req (user_register env) (λ u. no_content)

  unfoldable pub on_user_login : Context → String → Exec Reply
  unfolding call
  on_user_login c = call "UserLogin" codec.login_req (user_login env t c) login

  unfoldable pub on_get_users_public_info : Context → String → Exec Reply
  unfolding call
  on_get_users_public_info c =
      call "GetDesignateUsers" codec.user_ids_req (get_designate_users env) users

  unfoldable pub on_user_logout : Context → String → Exec Reply
  unfolding call
  on_user_logout c = call "UserLogout" codec.user_id_req (user_logout env c) (λ u. no_content)

  unfoldable pub on_book_meeting : Context → String → Exec Reply
  unfolding call
  on_book_meeting c = call "BookMeeting" codec.book_req (book_meeting env) meeting_detail

  unfoldable pub on_create_immediate_meeting : Context → String → Exec Reply
  unfolding call
  on_create_immediate_meeting c =
      call "CreateImmediateMeeting" codec.create_req (create_immediate_meeting env) created_meeting

  unfoldable pub on_join_meeting : Context → String → Exec Reply
  unfolding call
  on_join_meeting c = call "JoinMeeting" codec.join_req (join_meeting env) live_kit

  unfoldable pub on_get_meeting_token : Context → String → Exec Reply
  unfolding call
  on_get_meeting_token c =
      call "GetMeetingToken" codec.in_meeting_req (get_meeting_token env) meeting_token

  unfoldable pub on_leave_meeting : Context → String → Exec Reply
  unfolding call
  on_leave_meeting c =
      call "LeaveMeeting" codec.in_meeting_req (leave_meeting env) (λ u. no_content)

  unfoldable pub on_end_meeting : Context → String → Exec Reply
  unfolding call
  on_end_meeting c = call "EndMeeting" codec.end_req (end_meeting env) (λ u. no_content)

  unfoldable pub on_get_meetings : Context → String → Exec Reply
  unfolding call
  on_get_meetings c =
      call "GetMeetings" codec.meetings_req (λ req. get_meetings env req.status req.user_id) details

  unfoldable pub on_get_meeting : Context → String → Exec Reply
  unfolding call
  on_get_meeting c = call "GetMeeting" codec.meeting_id_req (get_meeting env) meeting_detail

  unfoldable pub on_get_personal_meeting_settings : Context → String → Exec Reply
  unfolding call
  on_get_personal_meeting_settings c =
      call "GetPersonalMeetingSettings" codec.in_meeting_req (get_personal_meeting_settings env)
        personal

  unfoldable pub on_modify_meeting_participant_nick_name : Context → String → Exec Reply
  unfolding call
  on_modify_meeting_participant_nick_name c =
      call "ModifyMeetingParticipantNickName" codec.modify_req
        (modify_meeting_participant_nick_name env) (λ u. no_content)

  unfoldable pub on_remove_meeting_participants : Context → String → Exec Reply
  unfolding call
  on_remove_meeting_participants c =
      call "RemoveParticipants" codec.remove_req (remove_participants env) removed

  unfoldable pub on_set_meeting_host_info : Context → String → Exec Reply
  unfolding call
  on_set_meeting_host_info c =
      call "SetMeetingHostInfo" codec.host_req (set_meeting_host_info env) (λ u. no_content)

  unfoldable pub on_set_personal_meeting_settings : Context → String → Exec Reply
  unfolding call
  on_set_personal_meeting_settings c =
      call "SetPersonalMeetingSettings" codec.set_personal_req (set_personal_meeting_settings env c)
        (λ u. no_content)

  unfoldable pub on_update_meeting : Context → String → Exec Reply
  unfolding call
  on_update_meeting c = call "UpdateMeeting" codec.update_req (update_meeting env) (λ u. no_content)

  unfoldable pub on_operate_meeting_all_stream : Context → String → Exec Reply
  unfolding call
  on_operate_meeting_all_stream c =
      call "OperateRoomAllStream" codec.operate_req (operate_room_all_stream env c) lists

  -- `UpdateUserPassword` has an empty body.
  unfoldable pub on_update_user_password : Context → String → Exec Reply
  on_update_user_password c body = pure no_content

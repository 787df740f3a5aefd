-- ===== src/Meeting/Hosting.antt =====
-- What a host does to a running meeting: `ModifyMeetingParticipantNickName`, `RemoveParticipants` and
-- `SetMeetingHostInfo` of internal/rpc/meeting/meeting.go.
pub mod Rights
pub mod Removal
use openmeeting_server.Base.{String, List, [], ◌∷◌, Bool, none, some}
use openmeeting_server.Result.{Result, ok, err, args, coded}
use openmeeting_server.Constants.{meeting_auth_check_error, host_type_host, host_type_co_host}
use openmeeting_server.Wire.{MeetingMetadata, CreatorDefinedMeetingInfo}
use openmeeting_server.Env.{Env, Exec, pure, attempt, unless, ◌>>=◌, ◌>>◌}
use openmeeting_server.LiveKit.{
  get_room_data, get_participant_meta_data, update_participant_data, remove_participant,
  update_meta_data,
}
use openmeeting_server.Meeting.Requests.{
  ModifyNickNameReq, RemoveMeetingParticipantsReq, SetMeetingHostInfoReq,
}
use openmeeting_server.Meeting.Permission.{check_auth_permission}
use openmeeting_server.Meeting.Convert.{get_host_user_id, get_creator_user_id}
use openmeeting_server.Meeting.Convert.Merge.{merge_and_unique}
use openmeeting_server.Meeting.Notification.{send_meeting_host_data2_client}

-- The check that the handlers of a running meeting share.
abbrev pub may_operate : MeetingMetadata → String → Bool
may_operate meta_data user_id =
    check_auth_permission (get_creator_user_id meta_data) (get_host_user_id meta_data) user_id

unfoldable pub with_creator_defined :
    (CreatorDefinedMeetingInfo → CreatorDefinedMeetingInfo) → MeetingMetadata → MeetingMetadata
with_creator_defined change meta_data =
    let defined = change meta_data.detail.info.creator_defined_meeting in
    let info = record meta_data.detail.info { creator_defined_meeting = defined } in
    record meta_data { detail = record meta_data.detail { info = info } }

unfoldable pub with_host : String → MeetingMetadata → MeetingMetadata
unfolding with_creator_defined
with_host user_id = with_creator_defined (λ c. record c { host_user_id = user_id })

unfoldable pub with_co_hosts : List String → MeetingMetadata → MeetingMetadata
unfolding with_creator_defined merge_and_unique
with_co_hosts ids =
    with_creator_defined
      (λ c. record c { co_host_user_id = merge_and_unique c.co_host_user_id ids })

-- `errs.ErrArgs` in place of an error of the notification.
abbrev pub as_args : Result (Unit {0}) → Result (Unit {0})
as_args (ok u) = ok u
as_args (err e) = err args

-- What `RemoveParticipants` answers.
pub record Removed : Type 0 where
  pub success_user_id_list : List String
  pub failed_user_id_list : List String

unfoldable pub add_outcome : Result (Unit {0}) → String → Removed → Removed
add_outcome (err e) one rest = record rest { failed_user_id_list = one ∷ rest.failed_user_id_list }
add_outcome (ok u) one rest = record rest { success_user_id_list = one ∷ rest.success_user_id_list }

module _ (env : Env) where
  unfoldable pub modify_meeting_participant_nick_name : ModifyNickNameReq → Exec (Unit {0})
  unfolding get_room_data check_auth_permission get_participant_meta_data update_participant_data
  modify_meeting_participant_nick_name req = do
    meta_data ← get_room_data env req.meeting_id
    unless (may_operate meta_data req.user_id) (coded meeting_auth_check_error) (do
      participant ← get_participant_meta_data env req.meeting_id req.participant_user_id
      let user_info = record participant.user_info { nickname = req.nickname }
      update_participant_data env (record participant { user_info = user_info }) req.meeting_id
          req.participant_user_id)

  -- The lists are in the order of the request.
  unfoldable pub remove_each : String → List String → Exec Removed
  unfolding remove_participant add_outcome
  remove_each meeting_id [] = pure (record { success_user_id_list = []; failed_user_id_list = [] })
  remove_each meeting_id (one ∷ ids) = do
    r ← attempt (remove_participant env meeting_id one)
    rest ← remove_each meeting_id ids
    pure (add_outcome r one rest)

  unfoldable pub remove_participants : RemoveMeetingParticipantsReq → Exec Removed
  unfolding get_room_data check_auth_permission remove_each
  remove_participants req = do
    meta_data ← get_room_data env req.meeting_id
    unless (may_operate meta_data req.user_id) (coded meeting_auth_check_error)
        (remove_each req.meeting_id req.participant_user_ids)

  -- A notification to one new host or co-host.
  notify_host : SetMeetingHostInfoReq → String → String → Exec (Unit {0})
  unfolding send_meeting_host_data2_client
  notify_host req host_type user_id p =
      let (r, p') =
        send_meeting_host_data2_client env req.meeting_id req.user_id user_id host_type p in
      (as_args r, p')

  notify_co_hosts : SetMeetingHostInfoReq → List String → Exec (Unit {0})
  unfolding notify_host
  notify_co_hosts req [] = pure tt
  notify_co_hosts req (one ∷ ids) = do
    notify_host req host_type_co_host one
    notify_co_hosts req ids

  unfoldable pub set_host : SetMeetingHostInfoReq → MeetingMetadata → Exec MeetingMetadata
  unfolding with_host notify_host
  set_host req meta_data = elim req.host_user_id [
    | none ↦ pure meta_data
    | some user_id ↦ (do notify_host req host_type_host user_id; pure (with_host user_id meta_data))
  ]

  -- No co-host in the request is a nil list.
  unfoldable pub set_co_hosts : SetMeetingHostInfoReq → MeetingMetadata → Exec MeetingMetadata
  unfolding with_co_hosts notify_co_hosts
  set_co_hosts req meta_data = elim req.co_host_user_ids [
    | [] ↦ pure meta_data
    | id ∷ ids ↦ (do notify_co_hosts req (id ∷ ids); pure (with_co_hosts (id ∷ ids) meta_data))
  ]

  unfoldable pub set_meeting_host_info : SetMeetingHostInfoReq → Exec (Unit {0})
  unfolding get_room_data check_auth_permission set_host set_co_hosts update_meta_data
  set_meeting_host_info req = do
    meta_data ← get_room_data env req.meeting_id
    unless (may_operate meta_data req.user_id) (coded meeting_auth_check_error) (do
      hosted ← set_host req meta_data
      co_hosted ← set_co_hosts req hosted
      update_meta_data env co_hosted)

-- ===== src/Meeting/Streams.antt =====
-- `OperateRoomAllStream` of internal/rpc/meeting/meeting.go with `muteAllStream` of logic.go, and
-- `CleanPreviousMeetings`.
pub mod Answers
use openmeeting_server.Base.{String, List, [], ◌∷◌, Bool, not, none, some, ◌==◌, if◌then◌else◌}
use openmeeting_server.Result.{Result, ok, err, coded, is_record_not_found}
use openmeeting_server.Constants.{meeting_auth_check_error}
use openmeeting_server.Wire.{ParticipantInfo, Room}
use openmeeting_server.Env.{Env, Exec, pure, attempt, unless, ◌>>=◌, ◌>>◌}
use openmeeting_server.LiveKit.{
  get_room_data, list_participants, toggle_mime_stream, get_all_rooms, remove_participant,
}
use openmeeting_server.Meeting.Requests.{Context, OperateRoomAllStreamReq, CleanPreviousMeetingsReq}
use openmeeting_server.Meeting.Hosting.{may_operate}
use openmeeting_server.Meeting.Permission.{check_auth_permission}
use openmeeting_server.Meeting.Notification.{
  broadcast_stream_operate_data, notify_kick_off_meeting_info2_client,
}

-- The two lists that `OperateRoomAllStream` answers, and that `muteAllStream` returns.
pub record Lists : Type 0 where
  pub stream_not_exist : List String
  pub failed : List String

abbrev pub no_lists : Lists
no_lists = record { stream_not_exist = []; failed = [] }

unfoldable pub add_toggled : Result (Unit {0}) → String → Lists → Lists
add_toggled (ok u) id lists = lists
add_toggled (err e) id lists =
    if is_record_not_found e
    then record lists { stream_not_exist = id ∷ lists.stream_not_exist }
    else record lists { failed = id ∷ lists.failed }

-- Both results of the second call are assigned to one variable, and the last assignment stays.
unfoldable pub camera_lists : Lists → Lists → Lists
camera_lists old new = record old { stream_not_exist = new.failed }

module _ (env : Env) where
  toggle_each : String → String → Bool → List ParticipantInfo → Exec Lists
  unfolding add_toggled
  toggle_each room_id stream_type mute [] = pure no_lists
  toggle_each room_id stream_type mute (v ∷ participants) = do
    r ← attempt (toggle_mime_stream env room_id v.identity stream_type mute)
    rest ← toggle_each room_id stream_type mute participants
    pure (add_toggled r v.identity rest)

  unfoldable pub mute_all_stream : String → String → Bool → Exec Lists
  unfolding list_participants toggle_each
  mute_all_stream room_id stream_type mute = do
    participants ← list_participants env room_id
    toggle_each room_id stream_type mute participants

  operate_microphone : OperateRoomAllStreamReq → Exec Lists
  unfolding mute_all_stream
  operate_microphone req = elim req.microphone_on_entry [
    | none ↦ pure no_lists
    | some on ↦ mute_all_stream req.meeting_id "audio" (not on)
  ]

  operate_camera : OperateRoomAllStreamReq → Lists → Exec Lists
  unfolding mute_all_stream camera_lists
  operate_camera req lists = elim req.camera_on_entry [
    | none ↦ pure lists
    | some on ↦ (do
      new ← mute_all_stream req.meeting_id "video" (not on)
      pure (camera_lists lists new))
  ]

  unfoldable pub operate_room_all_stream : Context → OperateRoomAllStreamReq → Exec Lists
  unfolding get_room_data check_auth_permission operate_microphone operate_camera
      broadcast_stream_operate_data
  operate_room_all_stream ctx req = do
    meta_data ← get_room_data env req.meeting_id
    unless (may_operate meta_data req.operator_user_id) (coded meeting_auth_check_error) (do
      lists ← operate_microphone req
      lists' ← operate_camera req lists
      broadcast_stream_operate_data env ctx req lists'.stream_not_exist lists'.failed
      pure lists')

  -- One participant of one room: a message, and the removal, errors logged.
  unfoldable pub clean_participant :
      Context → CleanPreviousMeetingsReq → String → ParticipantInfo → Exec (Unit {0})
  unfolding notify_kick_off_meeting_info2_client remove_participant
  clean_participant ctx req room_name p =
      if p.identity == req.user_id
      then (do
        sent ← attempt (
            notify_kick_off_meeting_info2_client env ctx room_name req.user_id req.reason
              req.reason_code)
        removed ← attempt (remove_participant env room_name req.user_id)
        pure tt)
      else pure tt

  unfoldable pub clean_participants :
      Context → CleanPreviousMeetingsReq → String → List ParticipantInfo → Exec (Unit {0})
  unfolding clean_participant
  clean_participants ctx req room_name [] = pure tt
  clean_participants ctx req room_name (p ∷ ps) = do
    clean_participant ctx req room_name p
    clean_participants ctx req room_name ps

  -- On an error the list of participants is nil.
  unfoldable pub clean_listed :
      Context → CleanPreviousMeetingsReq → String → Result (List ParticipantInfo) → Exec (Unit {0})
  unfolding clean_participants
  clean_listed ctx req room_name (err e) = pure tt
  clean_listed ctx req room_name (ok ps) = clean_participants ctx req room_name ps

  unfoldable pub clean_rooms : Context → CleanPreviousMeetingsReq → List Room → Exec (Unit {0})
  unfolding list_participants clean_listed
  clean_rooms ctx req [] = pure tt
  clean_rooms ctx req (room ∷ rooms) = do
    ps ← attempt (list_participants env room.name)
    clean_listed ctx req room.name ps
    clean_rooms ctx req rooms

  unfoldable pub clean_previous_meetings : Context → CleanPreviousMeetingsReq → Exec (Unit {0})
  unfolding get_all_rooms clean_rooms
  clean_previous_meetings ctx req = do rooms ← get_all_rooms env; clean_rooms ctx req rooms

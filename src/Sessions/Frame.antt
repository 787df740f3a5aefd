-- ===== src/Sessions/Frame.antt =====
-- The parts of the services that write no token, proved from the rules.
use openmeeting_server.Base.Int.{ℤ}
use openmeeting_server.Result.{Result, ok, err}
use openmeeting_server.Sessions.{state_of}
use openmeeting_server.Base.{arith, String, List, [], ◌∷◌, refl, ◌==◌}
use openmeeting_server.Env
use openmeeting_server.Env.{Env, Exec}
use openmeeting_server.Wire.{ParticipantInfo, Room}
use openmeeting_server.LiveKit
use openmeeting_server.LiveKit.{send_room_data}
use openmeeting_server.UserRpc
use openmeeting_server.Rpc.{remote}
use openmeeting_server.Meeting.Requests.{Context, CleanPreviousMeetingsReq}
use openmeeting_server.Meeting.Streams.{
  clean_previous_meetings, clean_rooms, clean_listed, clean_participants, clean_participant,
}
use openmeeting_server.Meeting.Notification.{notify_kick_off_meeting_info2_client}
use openmeeting_server.Sessions.Keeps.{
  Keeps, Keeps-pure, Keeps-lift, Keeps-ask, Keeps-attempt, Keeps-if, Keeps-bind,
}

module _ {A : Type 0} (env : Env) (key : String) where
  pub remote-Keeps :
      (name : String) {handler : Exec A}
      → Keeps env key handler
      → Keeps env key (remote env name handler)
  unfolding remote
  remote-Keeps name h =
      Keeps-bind (Keeps-ask (Env.rpc_request name) (λ h. env.rpc_request_answer h name) refl) λ u.
        Keeps-bind h λ a.
          Keeps-bind (Keeps-ask (Env.rpc_response name) (λ h. env.rpc_response_answer h name) refl)
            λ v. Keeps-pure a

module _ (env : Env) (key : String) where
  get_user_info-Keeps : (user_id : String) → Keeps env key (UserRpc.get_user_info env user_id)
  unfolding UserRpc.get_user_info state_of
  get_user_info-Keeps user_id = record { at = λ p. ground arith }

  remove_participant-Keeps :
      (room_id user_id : String) → Keeps env key (LiveKit.remove_participant env room_id user_id)
  unfolding LiveKit.remove_participant state_of
  remove_participant-Keeps room_id user_id = record { at = λ p. ground arith }

  notify-Keeps :
      (ctx : Context) (room_id user_id reason : String) (reason_code : ℤ)
      → Keeps env key
          (notify_kick_off_meeting_info2_client env ctx room_id user_id reason reason_code)
  unfolding notify_kick_off_meeting_info2_client send_room_data
  notify-Keeps ctx room_id user_id reason reason_code =
      Keeps-bind (get_user_info-Keeps user_id)
        λ info. Keeps-bind (Keeps-lift (env.marshal_notification _)) λ u. Keeps-ask _ _ refl

  clean_participants-Keeps :
      (ctx : Context) (req : CleanPreviousMeetingsReq) (room_name : String)
      (ps : List ParticipantInfo)
      → Keeps env key (clean_participants env ctx req room_name ps)
  unfolding clean_participants clean_participant
  clean_participants-Keeps ctx req room_name [] = Keeps-pure tt
  clean_participants-Keeps ctx req room_name (p ∷ ps) =
      Keeps-bind
        (Keeps-if (p.identity == req.user_id)
          (Keeps-bind
            (Keeps-attempt (notify-Keeps ctx room_name req.user_id req.reason req.reason_code))
            λ sent.
              Keeps-bind (Keeps-attempt (remove_participant-Keeps room_name req.user_id))
                λ removed. Keeps-pure tt)
          (Keeps-pure tt))
        λ u. clean_participants-Keeps ctx req room_name ps

  clean_listed-Keeps :
      (ctx : Context) (req : CleanPreviousMeetingsReq) (room_name : String)
      (ps : Result (List ParticipantInfo))
      → Keeps env key (clean_listed env ctx req room_name ps)
  unfolding clean_listed
  clean_listed-Keeps ctx req room_name (err e) = Keeps-pure tt
  clean_listed-Keeps ctx req room_name (ok ps) = clean_participants-Keeps ctx req room_name ps

  list_participants-Keeps :
      (room_id : String) → Keeps env key (LiveKit.list_participants env room_id)
  unfolding LiveKit.list_participants state_of
  list_participants-Keeps room_id = record { at = λ p. refl }

  get_all_rooms-Keeps : Keeps env key (LiveKit.get_all_rooms env)
  unfolding LiveKit.get_all_rooms state_of
  get_all_rooms-Keeps = record { at = λ p. refl }

  clean_rooms-Keeps :
      (ctx : Context) (req : CleanPreviousMeetingsReq) (rooms : List Room)
      → Keeps env key (clean_rooms env ctx req rooms)
  unfolding clean_rooms
  clean_rooms-Keeps ctx req [] = Keeps-pure tt
  clean_rooms-Keeps ctx req (room ∷ rooms) =
      Keeps-bind (Keeps-attempt (list_participants-Keeps room.name)) λ ps.
        Keeps-bind (clean_listed-Keeps ctx req room.name ps) λ u. clean_rooms-Keeps ctx req rooms

  pub clean_previous_meetings-Keeps :
      (ctx : Context) (req : CleanPreviousMeetingsReq)
      → Keeps env key (clean_previous_meetings env ctx req)
  unfolding clean_previous_meetings
  clean_previous_meetings-Keeps ctx req = Keeps-bind get_all_rooms-Keeps (clean_rooms-Keeps ctx req)

-- ===== src/ReadOnly/Services.antt =====
-- The reads of the services, proved from the rules.
use openmeeting_server.Base.{String, List, [], ◌∷◌, refl, false, arith}
use openmeeting_server.Env.{Env, writes}
use openmeeting_server.LiveKit.{
  get_room_data, get_room, get_all_rooms, get_participant_user_ids, list_participants,
}
use openmeeting_server.Storage.{take_with_error}
use openmeeting_server.UserRpc.{get_user_info}
use openmeeting_server.Meeting.Permission.{check_user_in_meeting, user_in_rooms}
use openmeeting_server.ReadOnly.{
  ReadsOnly, ReadsOnly-pure, ReadsOnly-ask, ReadsOnly-if, ReadsOnly-bind,
}
use openmeeting_server.Wire.{Room}

module _ (env : Env) where
  pub get_room_data-ReadsOnly : (room_id : String) → ReadsOnly (get_room_data env room_id)
  unfolding get_room_data writes
  get_room_data-ReadsOnly room_id = record { at = λ p. ground arith }

  pub get_room-ReadsOnly : (room_id : String) → ReadsOnly (get_room env room_id)
  unfolding get_room writes
  get_room-ReadsOnly room_id = record { at = λ p. ground arith }

  pub get_user_info-ReadsOnly : (user_id : String) → ReadsOnly (get_user_info env user_id)
  unfolding get_user_info writes
  get_user_info-ReadsOnly user_id = record { at = λ p. ground arith }

  pub take_with_error-ReadsOnly : (meeting_id : String) → ReadsOnly (take_with_error env meeting_id)
  unfolding take_with_error writes
  take_with_error-ReadsOnly meeting_id = record { at = λ p. ground arith }

  pub list_participants-ReadsOnly : (room_id : String) → ReadsOnly (list_participants env room_id)
  unfolding list_participants
  list_participants-ReadsOnly room_id = ReadsOnly-ask _ _ refl

  get_all_rooms-ReadsOnly : ReadsOnly (get_all_rooms env)
  unfolding get_all_rooms writes
  get_all_rooms-ReadsOnly = record { at = λ p. ground arith }

  get_participant_user_ids-ReadsOnly :
      (room_id : String) → ReadsOnly (get_participant_user_ids env room_id)
  unfolding get_participant_user_ids writes
  get_participant_user_ids-ReadsOnly room_id = record { at = λ p. ground arith }

  user_in_rooms-ReadsOnly :
      (user_id : String) (rooms : List Room) → ReadsOnly (user_in_rooms env user_id rooms)
  unfolding user_in_rooms
  user_in_rooms-ReadsOnly user_id [] = ReadsOnly-pure false
  user_in_rooms-ReadsOnly user_id (room ∷ rooms) =
      ReadsOnly-bind (get_participant_user_ids-ReadsOnly room.name)
        λ ids. ReadsOnly-if _ (ReadsOnly-pure _) (user_in_rooms-ReadsOnly user_id rooms)

  pub check_user_in_meeting-ReadsOnly :
      (user_id : String) → ReadsOnly (check_user_in_meeting env user_id)
  unfolding check_user_in_meeting
  check_user_in_meeting-ReadsOnly user_id =
      ReadsOnly-bind (get_all_rooms-ReadsOnly) (user_in_rooms-ReadsOnly user_id)

-- ===== src/LiveKit.antt =====
-- pkg/rtc/livekit/livekit.go: the room service as the program uses it. A method that only passes an
-- error on wraps it, which changes no decision.
pub mod RoundRobin
use openmeeting_server.Base.{
  String, List, [], ◌∷◌, Bool, false, Option, none, some, map, ◌==◌, ◌+◌, ◌-◌, ◌%◌, ◌^◌, eqb,
  if◌then◌else◌,
}
use openmeeting_server.Base.Lists.{length}
use openmeeting_server.Result.{element_at, Result, ok, err, record_not_found, panic, is_not_found}
use openmeeting_server.Wire.{
  MeetingMetadata, ParticipantMetaData, NotifyMeetingData, Room, ParticipantInfo,
}
use openmeeting_server.Env
use openmeeting_server.Env.{◌>>=◌, ◌>>◌, Env, Grant, Exec, pure, raise, lift, ask, attempt}

-- `DestinationIdentities`, left empty for a nil list
pub destinations : Option (List String) → List String
destinations none = []
destinations (some ids) = ids

-- The first participant with the identity.
pub find_participant : String → List ParticipantInfo → Option ParticipantInfo
find_participant user_id [] = none
find_participant user_id (one ∷ rest) =
    if one.identity == user_id then some one else find_participant user_id rest

module _ (env : Env) where
  list_rooms : List String → Exec (List Room)
  list_rooms names = ask (Env.list_rooms names) (λ h. env.list_rooms_answer h names)

  -- The counter is a uint64, so `AddUint64` wraps, and so does the subtraction.
  unfoldable pub get_live_url : Exec String
  unfolding element_at
  get_live_url p =
      if eqb (length env.urls) 1
      then (element_at env.urls 0, p)
      else let next = (p.index + 1) % 2 ^ 64 in
        (
          if eqb (length env.urls) 0
              then err panic
              else element_at env.urls ((next + 2 ^ 64 - 1) % 2 ^ 64 % length env.urls),
          record p { index = next },
        )

  sign : Grant → Exec (String × String)
  sign grant = do
    jwt ← ask (Env.to_jwt grant) (λ h. env.to_jwt_answer h grant)
    url ← get_live_url
    pure (jwt, url)

  unfoldable pub get_join_token :
      String → String → Option ParticipantMetaData → Bool → Exec (String × String)
  unfolding sign get_live_url
  get_join_token room_id identity (some metadata) is_listener = do
    bytes ← lift (env.marshal_participant metadata)
    sign (record {
      room = room_id;
      identity = identity;
      hidden = is_listener;
      metadata = some bytes;
    })
  get_join_token room_id identity none is_listener =
      sign (record { room = room_id; identity = identity; hidden = is_listener; metadata = none })

  -- `CreateRoom` and `createRoom`; the callback that the one builds is not used by the other.
  unfoldable pub create_room :
      String
      → String
      → MeetingMetadata
      → Option ParticipantMetaData
      → Exec (String × String × String)
  unfolding get_join_token
  create_room meeting_id identify room_meta_data participant_meta_data = do
    bytes ← lift (env.marshal_metadata room_meta_data)
    room ← ask (Env.create_room meeting_id bytes) (λ h. env.create_room_answer h meeting_id bytes)
    join ← get_join_token meeting_id identify participant_meta_data false
    pure (room.sid, join.0, join.1)

  unfoldable pub get_all_rooms : Exec (List Room)
  unfolding list_rooms
  get_all_rooms = list_rooms []

  first_room : List Room → Exec Room
  first_room [] = raise record_not_found
  first_room (room ∷ _) = pure room

  unfoldable pub room_is_exist : String → Exec String
  unfolding list_rooms first_room
  room_is_exist meeting_id = do
    rooms ← list_rooms (meeting_id ∷ [])
    room ← first_room rooms
    pure room.sid

  unfoldable pub get_room : String → Exec Room
  unfolding list_rooms first_room
  get_room room_id = do rooms ← list_rooms (room_id ∷ []); first_room rooms

  decode_room : Room → Exec MeetingMetadata
  decode_room room =
      if room.metadata == ""
      then raise record_not_found
      else lift (env.unmarshal_metadata room.metadata)

  unfoldable pub get_room_data : String → Exec MeetingMetadata
  unfolding list_rooms first_room decode_room
  get_room_data room_id = do
    rooms ← list_rooms (room_id ∷ [])
    room ← first_room rooms
    decode_room room

  unfoldable pub update_meta_data : MeetingMetadata → Exec (Unit {0})
  update_meta_data update_data = do
    let meeting_id = update_data.detail.info.system_generated.meeting_id
    bytes ← lift (env.marshal_metadata update_data)
    ask (Env.update_room_metadata meeting_id bytes)
        (λ h. env.update_room_metadata_answer h meeting_id bytes)

  unfoldable pub close_room : String → Exec (Unit {0})
  close_room room_id = ask (Env.delete_room room_id) (λ h. env.delete_room_answer h room_id)

  forgive : Result (Unit {0}) → Result (Unit {0})
  forgive (ok u) = ok u
  forgive (err e) = if is_not_found e then ok tt else err e

  -- A participant that is not there any more counts as removed.
  unfoldable pub remove_participant : String → String → Exec (Unit {0})
  unfolding forgive is_not_found
  remove_participant room_id user_id = do
    r ← attempt (
        ask (Env.remove_participant room_id user_id)
          (λ h. env.remove_participant_answer h room_id user_id))
    lift (forgive r)

  -- The body is commented out in the source: it does nothing and reports success.
  abbrev pub toggle_mime_stream : String → String → String → Bool → Exec (Unit {0})
  toggle_mime_stream room_id user_id mime_type mute = pure tt

  unfoldable pub send_room_data :
      String → Option (List String) → NotifyMeetingData → Exec (Unit {0})
  unfolding destinations
  send_room_data room_id user_ids send_data = do
    lift (env.marshal_notification send_data)
    let ids = destinations user_ids
    ask (Env.send_data room_id ids send_data) (λ h. env.send_data_answer h room_id ids send_data)

  unfoldable pub list_participants : String → Exec (List ParticipantInfo)
  list_participants room_id =
      ask (Env.list_participants room_id) (λ h. env.list_participants_answer h room_id)

  unfoldable pub get_participant_user_ids : String → Exec (List String)
  unfolding list_participants
  get_participant_user_ids room_id = do
    participants ← list_participants room_id
    pure (map (λ v. v.identity) participants)

  decode_participant : Option ParticipantInfo → Exec ParticipantMetaData
  decode_participant none = raise record_not_found
  decode_participant (some one) = lift (env.unmarshal_participant one.metadata)

  unfoldable pub get_participant_meta_data : String → String → Exec ParticipantMetaData
  unfolding list_participants find_participant decode_participant
  get_participant_meta_data room_id user_id = do
    participants ← list_participants room_id
    decode_participant (find_participant user_id participants)

  unfoldable pub update_participant_data : ParticipantMetaData → String → String → Exec (Unit {0})
  update_participant_data user_data room_id user_id = do
    bytes ← lift (env.marshal_participant user_data)
    let nickname = user_data.user_info.nickname
    ask (Env.update_participant room_id user_id bytes nickname)
        (λ h. env.update_participant_answer h room_id user_id bytes nickname)

-- ===== src/Meeting/Joining/Admission.antt =====
-- Who is turned away by `JoinMeeting`.
use openmeeting_server.Base.{
  Bool-cases, inl, inr, refl, String, List, [], ◌∷◌, ◌++◌, map, ◌≡◌, ◌≢◌, true, false, eq_iff,
  arith, ◌∙◌,
}
use openmeeting_server.Result.{ok, err, coded}
use openmeeting_server.Constants.{meeting_user_limit_error, meeting_password_error}
use openmeeting_server.Model.{MeetingInfo}
use openmeeting_server.Wire.{ParticipantInfo, MeetingMetadata, Room, UserInfo}
use openmeeting_server.Env
use openmeeting_server.Env.{Call, Env, Process, writes}
use openmeeting_server.UserRpc.{get_user_info}
use openmeeting_server.Storage.{take_with_error}
use openmeeting_server.LiveKit.{get_room, get_all_rooms, get_participant_user_ids}
use openmeeting_server.Base.Lists.{contains}
use openmeeting_server.Meeting.Requests.{JoinMeetingReq}
use openmeeting_server.Meeting.Permission.{check_user_in_meeting, user_in_rooms}
use openmeeting_server.Meeting.Convert.{get_host_user_id, get_creator_user_id}
use openmeeting_server.Meeting.Joining.{may_enter, room_meta_data, join_meeting}
use openmeeting_server.ReadOnly.{ReadsOnly}
use openmeeting_server.ReadOnly.Services.{
  get_user_info-ReadsOnly, take_with_error-ReadsOnly, check_user_in_meeting-ReadsOnly,
  get_room-ReadsOnly,
}

module _ (env : Env) (user_id : String) (lists : String → List ParticipantInfo)
    (steady : (h : List Call) (name : String)
      → env.list_participants_answer h name ≡ ok (lists name)) where
  user_in_rooms-inside :
      (before after : List Room) (room : Room) (p : Process)
      → contains user_id (map (λ v. v.identity) (lists room.name)) ≡ true
      → (user_in_rooms env user_id (before ++ room ∷ after) p).0 ≡ ok true
  unfolding user_in_rooms get_participant_user_ids
  user_in_rooms-inside [] after room p inside = rw (steady p.calls room.name, inside) refl
  user_in_rooms-inside (other ∷ before) after room p inside =
      let others = map (λ v. v.identity) (lists other.name) in
      let q = record p { calls = Env.list_participants other.name ∷ p.calls } in
      elim (Bool-cases (contains user_id others)) [
        | inl here ↦ rw (steady p.calls other.name, here) refl
        | inr elsewhere ↦
            rw (steady p.calls other.name, elsewhere)
              (user_in_rooms-inside before after room q inside)
      ]

check_user_in_meeting-inside :
    (env : Env) (user_id : String) (p : Process) (rooms before after : List Room) (room : Room)
    (lists : String → List ParticipantInfo)
    → env.list_rooms_answer p.calls [] ≡ ok rooms
    → ((h : List Call) (name : String) → env.list_participants_answer h name ≡ ok (lists name))
    → rooms ≡ before ++ room ∷ after
    → contains user_id (map (λ v. v.identity) (lists room.name)) ≡ true
    → (check_user_in_meeting env user_id p).0 ≡ ok true
unfolding check_user_in_meeting get_all_rooms
check_user_in_meeting-inside env user_id p rooms before after room lists open_rooms steady among
      inside =
    rw (open_rooms, among)
      (user_in_rooms-inside env user_id lists steady before after room
        (record p { calls = Env.list_rooms [] ∷ p.calls }) inside)

room_meta_data-ReadsOnly :
    (env : Env) (info : MeetingInfo) (room : Room) → ReadsOnly (room_meta_data env info room)
unfolding room_meta_data writes
room_meta_data-ReadsOnly env info room = record { at = λ p. ground arith }

module _ (env : Env) (req : JoinMeetingReq) (p : Process) where
  -- The process after each step of the handler.
  abbrev asked : Process
  asked = (get_user_info env req.user_id p).1

  abbrev taken : Process
  taken = (take_with_error env req.meeting_id asked).1

  abbrev checked : Process
  checked = (check_user_in_meeting env req.user_id taken).1

  abbrev pub seen : Process
  seen = (get_room env req.meeting_id checked).1

  checked-writes : writes checked.calls ≡ writes p.calls
  checked-writes =
      (check_user_in_meeting-ReadsOnly env req.user_id).at taken
      ∙ (take_with_error-ReadsOnly env req.meeting_id).at asked
      ∙ (get_user_info-ReadsOnly env req.user_id).at p

  module _ (user_info : UserInfo) (db_info : MeetingInfo)
      (known : (get_user_info env req.user_id p).0 ≡ ok user_info)
      (stored : (take_with_error env req.meeting_id asked).0 ≡ ok db_info) where
    turned_away_inside :
        (check_user_in_meeting env req.user_id taken).0 ≡ ok true
        → ((join_meeting env req p).0 ≡ err (coded meeting_user_limit_error))
          × (writes (join_meeting env req p).1.calls ≡ writes p.calls)
    unfolding join_meeting
    turned_away_inside inside = (
      rw (known, stored, inside, Env.continue, Env.unless),
      rw (known, stored, inside, Env.continue, Env.unless) checked-writes,
    )

    -- A known user cannot join a stored meeting while taking part in any open room, this one or
    -- another: JoinMeeting answers the user limit error, and no call changes anything, when LiveKit
    -- lists the rooms and, the same all along, the participants of each.
    pub join_meeting_twice :
        (rooms before after : List Room) (room : Room) (lists : String → List ParticipantInfo)
        → env.list_rooms_answer taken.calls [] ≡ ok rooms
        → ((h : List Call) (name : String) → env.list_participants_answer h name ≡ ok (lists name))
        → rooms ≡ before ++ room ∷ after
        → contains req.user_id (map (λ v. v.identity) (lists room.name)) ≡ true
        → ((join_meeting env req p).0 ≡ err (coded meeting_user_limit_error))
          × (writes (join_meeting env req p).1.calls ≡ writes p.calls)
    join_meeting_twice rooms before after room lists open_rooms steady among inside =
        turned_away_inside (
          check_user_in_meeting-inside env req.user_id taken rooms before after room lists
            open_rooms steady among inside)

    -- A known user in no meeting, who is neither host nor creator of the room of a stored meeting,
    -- and whose password is not that of the room, gets the password error from JoinMeeting, and no
    -- call changes anything, when the room and its metadata are read.
    pub join_meeting_wrong_password :
        (room : Room) (meta_data : MeetingMetadata)
        → (check_user_in_meeting env req.user_id taken).0 ≡ ok false
        → (get_room env req.meeting_id checked).0 ≡ ok room
        → (room_meta_data env db_info room seen).0 ≡ ok meta_data
        → req.user_id ≢ get_host_user_id meta_data
        → req.user_id ≢ get_creator_user_id meta_data
        → req.password ≢ meta_data.detail.info.creator_defined_meeting.password
        → (join_meeting env req p
            ≡ (err (coded meeting_password_error), (room_meta_data env db_info room seen).1))
          × (writes (room_meta_data env db_info room seen).1.calls ≡ writes p.calls)
    unfolding join_meeting
    join_meeting_wrong_password room meta_data outside open_room read host creator password =
        let turned_away : may_enter req meta_data ≡ false =
          unfold may_enter in
          ground (
            arith,
            eq_iff req.user_id (get_host_user_id meta_data),
            eq_iff req.user_id (get_creator_user_id meta_data),
            eq_iff req.password meta_data.detail.info.creator_defined_meeting.password,
          ) in
        (
          rw (known, stored, outside, Env.continue, Env.unless, open_room) (rw (read, turned_away)),
          (room_meta_data-ReadsOnly env db_info room).at seen
              ∙ (get_room-ReadsOnly env req.meeting_id).at checked
              ∙ checked-writes,
        )

-- ===== src/Callback.antt =====
-- pkg/rtc/livekit/callback.go: how the host changes when participants come and go. Errors are logged
-- or end the handler, so a callback always succeeds.
pub mod Room
pub mod Succession
use openmeeting_server.Base.{String, List, [], ◌∷◌, not, ◌&&◌, ◌==◌, eqb, if◌then◌else◌}
use openmeeting_server.Base.Lists.{length}
use openmeeting_server.Result.{Result, ok, err}
use openmeeting_server.Wire.{MeetingMetadata, ParticipantInfo}
use openmeeting_server.Env.{Env, Exec, pure, attempt, ◌>>=◌, ◌>>◌}
use openmeeting_server.LiveKit.{
  get_room_data, list_participants, update_meta_data, remove_participant,
}
use openmeeting_server.Meeting.Convert.{get_host_user_id, get_creator_user_id}
use openmeeting_server.Meeting.Hosting.{with_host}

module _ (env : Env) where
  -- The two branches of `OnRoomParticipantConnected`, once the room and its participants are known.
  -- The second tests the host that was read, not the one that the first may have set.
  unfoldable pub greet : String → MeetingMetadata → List ParticipantInfo → Exec (Unit {0})
  unfolding update_meta_data with_host
  greet user_id meta_data participants =
      let host_user_id = get_host_user_id meta_data in
      let creator_user_id = get_creator_user_id meta_data in
      let creator_first =
        eqb (length participants) 2
        && (user_id == creator_user_id && not (user_id == host_user_id)) in
      do
        (if creator_first
            then (do r ← attempt (update_meta_data env (with_host user_id meta_data)); pure tt)
            else pure tt)
        (if host_user_id == ""
            then (do
              r ← attempt (update_meta_data env (with_host creator_user_id meta_data))
              pure tt)
            else pure tt)

  connected : String → Result MeetingMetadata → String → Exec (Unit {0})
  unfolding list_participants greet
  connected room_id (err e) user_id = pure tt
  connected room_id (ok meta_data) user_id = do
    participants ← attempt (list_participants env room_id)
    elim participants [ err e ↦ pure tt | ok ps ↦ greet user_id meta_data ps ]

  unfoldable pub on_room_participant_connected : String → String → Exec (Unit {0})
  unfolding get_room_data connected
  on_room_participant_connected room_id user_id = do
    meta_data ← attempt (get_room_data env room_id)
    connected room_id meta_data user_id

  -- The creator takes over from a host who leaves.
  unfoldable pub succeed_host : String → Result MeetingMetadata → Exec (Unit {0})
  unfolding update_meta_data with_host
  succeed_host user_id (err e) = pure tt
  succeed_host user_id (ok meta_data) =
      let host_user_id = get_host_user_id meta_data in
      let creator_user_id = get_creator_user_id meta_data in
      if host_user_id == user_id && not (creator_user_id == host_user_id)
      then (do r ← attempt (update_meta_data env (with_host creator_user_id meta_data)); pure tt)
      else pure tt

  unfoldable pub on_room_participant_disconnected : String → String → Exec (Unit {0})
  unfolding remove_participant get_room_data succeed_host
  on_room_participant_disconnected room_id user_id = do
    r ← attempt (remove_participant env room_id user_id)
    meta_data ← attempt (get_room_data env room_id)
    succeed_host user_id meta_data

  remove_all : String → List ParticipantInfo → Exec (Unit {0})
  unfolding remove_participant
  remove_all room_id [] = pure tt
  remove_all room_id (p ∷ ps) = do
    r ← attempt (remove_participant env room_id p.identity)
    remove_all room_id ps

  unfoldable pub on_room_disconnected : String → Exec (Unit {0})
  unfolding list_participants remove_all
  on_room_disconnected room_id = do
    participants ← attempt (list_participants env room_id)
    elim participants [ err e ↦ pure tt | ok ps ↦ remove_all room_id ps ]

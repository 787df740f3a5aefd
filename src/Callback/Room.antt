-- ===== src/Callback/Room.antt =====
-- pkg/rtc/callback.go: what a room tells its callback, for any `CallbackInterface`, and the one of
-- pkg/rtc/livekit/callback.go. `userRpc` is only kept in the source and is left out.
use openmeeting_server.Base.{String, List, [], ◌∷◌, Bool, false, ◌≡◌, refl}
use openmeeting_server.Result.{ok}
use openmeeting_server.Env.{Env, Process, Exec, pure, ◌>>◌}
use openmeeting_server.Callback.{
  on_room_participant_connected, on_room_participant_disconnected, on_room_disconnected,
}

pub record CallbackInterface : Type 0 where
  pub participant_connected : String → Exec (Unit {0})
  pub participant_disconnected : String → Exec (Unit {0})
  pub room_disconnected : Exec (Unit {0})
  pub meeting_disconnected : String → Exec (Unit {0})
  pub meeting_unmute : String → String → Bool → List String → Exec (Unit {0})

pub record RoomCallback : Type 0 where
  pub user_join : Bool
  pub s_id : String
  pub room_id : String
  pub cb : CallbackInterface

new_room_callback : String → String → CallbackInterface → RoomCallback
new_room_callback room_id s_id cb = record {
  user_join = false;
  s_id = s_id;
  room_id = room_id;
  cb = cb;
}

-- What the room tells: the identity of a remote participant goes with the first two.
pub data RoomEvent : Type 0 where
  participant_came : String → RoomEvent
  participant_went : String → RoomEvent
  disconnected : RoomEvent
  reconnected : RoomEvent
  reconnecting : RoomEvent

on_participant_connected : RoomCallback → String → Exec (Unit {0})
on_participant_connected r identity = r.cb.participant_connected identity

on_participant_disconnected : RoomCallback → String → Exec (Unit {0})
on_participant_disconnected r identity = r.cb.participant_disconnected identity

on_disconnected : RoomCallback → Exec (Unit {0})
on_disconnected r = r.cb.room_disconnected

-- The last two events are only logged.
on_event : RoomCallback → RoomEvent → Exec (Unit {0})
unfolding on_participant_connected on_participant_disconnected on_disconnected
on_event r (participant_came identity) = on_participant_connected r identity
on_event r (participant_went identity) = on_participant_disconnected r identity
on_event r disconnected = on_disconnected r
on_event r reconnected = pure tt
on_event r reconnecting = pure tt

on_events : RoomCallback → List RoomEvent → Exec (Unit {0})
unfolding on_event
on_events r [] = pure tt
on_events r (event ∷ events) = on_event r event >> on_events r events

-- `NewRTC`: the handlers of the LiveKit client. The last two have an empty body.
new_rtc : Env → String → CallbackInterface
unfolding on_room_participant_connected on_room_participant_disconnected on_room_disconnected
new_rtc env room_id = record {
  participant_connected = λ user_id. on_room_participant_connected env room_id user_id;
  participant_disconnected = λ user_id. on_room_participant_disconnected env room_id user_id;
  room_disconnected = on_room_disconnected env room_id;
  meeting_disconnected = λ room_id. pure tt;
  meeting_unmute = λ room_id stream_type mute user_ids. pure tt;
}

module _ (env : Env) (room_id s_id : String) where
  -- A room that loses its connection and gets it back has changed nothing.
  reconnection-events :
      (p : Process)
      → on_events
          (new_room_callback room_id s_id (new_rtc env room_id))
          (reconnecting ∷ reconnected ∷ [])
          p
        ≡ (ok tt, p)
  unfolding on_events new_room_callback
  reconnection-events p = refl

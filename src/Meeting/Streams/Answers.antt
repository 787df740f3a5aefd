-- ===== src/Meeting/Streams/Answers.antt =====
-- What `OperateRoomAllStream` answers.
use openmeeting_server.LiveKit.{get_room_data}
use openmeeting_server.Base.{not, String, List, [], ◌∷◌, ◌≡◌, refl, Bool, none, some}
use openmeeting_server.Result.{ok}
use openmeeting_server.Yields.{Yields, Yields-bind, Yields-Anything, Yields-pure, Yields-unless}
use openmeeting_server.Wire.{ParticipantInfo}
use openmeeting_server.LiveKit
use openmeeting_server.Meeting.Notification.{broadcast_stream_operate_data}
use openmeeting_server.Env.{◌>>=◌, Env, Process, pure}
use openmeeting_server.Meeting.Requests.{Context, OperateRoomAllStreamReq}
use openmeeting_server.Meeting.Streams.{
  Lists, no_lists, toggle_each, mute_all_stream, operate_room_all_stream, operate_microphone,
  operate_camera, add_toggled, camera_lists,
}

module _ (env : Env) where
  toggle_each-none :
      (room_id stream_type : String) (mute : Bool) (participants : List ParticipantInfo)
      (p : Process)
      → toggle_each env room_id stream_type mute participants p ≡ (ok no_lists, p)
  unfolding toggle_each add_toggled
  toggle_each-none room_id stream_type mute [] p = refl
  toggle_each-none room_id stream_type mute (v ∷ participants) p =
      rw (toggle_each-none room_id stream_type mute participants p)

  mute_all_stream-Yields :
      (room_id stream_type : String) (mute : Bool)
      → Yields (λ l. l ≡ no_lists) (mute_all_stream env room_id stream_type mute)
  unfolding mute_all_stream
  mute_all_stream-Yields room_id stream_type mute =
      Yields-bind (Yields-Anything (LiveKit.list_participants env room_id))
        λ ps _. record { at = λ p a e. cc (e, toggle_each-none room_id stream_type mute ps p) }

  operate_microphone-Yields :
      (req : OperateRoomAllStreamReq) → Yields (λ l. l ≡ no_lists) (operate_microphone env req)
  unfolding operate_microphone
  operate_microphone-Yields req =
      elim req.microphone_on_entry
        as (λ w.
          Yields (λ l. l ≡ no_lists)
            (elim w [
              | none ↦ pure no_lists
              | some on ↦ mute_all_stream env req.meeting_id "audio" (not on)
            ])) [
              | none ↦ Yields-pure no_lists refl
              | some on ↦ mute_all_stream-Yields req.meeting_id "audio" (not on)
            ]

  operate_camera-Yields :
      (req : OperateRoomAllStreamReq) (lists : Lists)
      → lists ≡ no_lists
      → Yields (λ l. l ≡ no_lists) (operate_camera env req lists)
  unfolding operate_camera camera_lists
  operate_camera-Yields req lists h =
      elim req.camera_on_entry
        as (λ w.
          Yields (λ l. l ≡ no_lists)
            (elim w [
              | none ↦ pure lists
              | some on ↦ (do
                new ← mute_all_stream env req.meeting_id "video" (not on)
                pure (camera_lists lists new))
            ])) [
              | none ↦ Yields-pure lists h
              | some on ↦
                  Yields-bind (mute_all_stream-Yields req.meeting_id "video" (not on))
                    λ new e. Yields-pure (camera_lists lists new) (rw (h, e))
            ]

  -- A stream that is toggled is never reported, however the service answers: an answer of
  -- `OperateRoomAllStream` has two empty lists.
  pub operate_room_all_stream-no_lists :
      (ctx : Context) (req : OperateRoomAllStreamReq)
      → Yields (λ lists. lists ≡ no_lists) (operate_room_all_stream env ctx req)
  unfolding operate_room_all_stream
  operate_room_all_stream-no_lists ctx req =
      Yields-bind (Yields-Anything (get_room_data env req.meeting_id)) λ meta_data _.
        Yields-unless _ _ (
          Yields-bind (operate_microphone-Yields req) λ lists h.
            Yields-bind (operate_camera-Yields req lists h) λ lists' h'.
              Yields-bind
                (Yields-Anything
                  (broadcast_stream_operate_data env ctx req lists'.stream_not_exist lists'.failed))
                λ u _. Yields-pure lists' h')

-- ===== src/Meeting/Notification.antt =====
-- internal/rpc/meeting/notification.go: the messages that clients receive.
pub mod Broadcast
use openmeeting_server.Base.{String, List, [], ◌∷◌, Bool, Option, none, some, ◌==◌, if◌then◌else◌}
use openmeeting_server.Base.Int.{ℤ}
use openmeeting_server.Base.Lists.{contains}
use openmeeting_server.Result.{ok}
use openmeeting_server.Wire.{
  UserOperationData, meeting_host_data, stream_operate_data, kick_off_meeting_data,
}
use openmeeting_server.Env.{Env, Exec, ◌>>=◌}
use openmeeting_server.LiveKit.{send_room_data, get_participant_user_ids}
use openmeeting_server.UserRpc.{get_user_info}
use openmeeting_server.Meeting.Requests.{Context, OperateRoomAllStreamReq}

-- The keys of a Go map, each once; a key that is written again stays where it is.
unfoldable pub key_set : List String → List String
unfolding contains
key_set [] = []
key_set (v ∷ vs) = let rest = key_set vs in if contains v rest then rest else v ∷ rest

unfoldable pub delete_key : String → List String → List String
delete_key v [] = []
delete_key v (k ∷ ks) = let rest = delete_key v ks in if k == v then rest else k ∷ rest

-- `for _, v := range list { if _, ok := userMap[v]; !ok { delete(userMap, v) } }`
unfoldable pub delete_absent : List String → List String → List String
unfolding delete_key contains
delete_absent [] user_map = user_map
delete_absent (v ∷ vs) user_map =
    delete_absent vs (if contains v user_map then user_map else delete_key v user_map)

-- One entry for each user, with what the request asks for.
unfoldable pub operations : Option Bool → Option Bool → List String → List UserOperationData
operations camera_on microphone_on [] = []
operations camera_on microphone_on (v ∷ vs) =
    record { user_id = v; camera_on_entry = camera_on; microphone_on_entry = microphone_on }
    ∷ operations camera_on microphone_on vs

-- The users that a broadcast names, before the map is ranged over.
unfoldable pub broadcast_users : List String → List String → List String → List String
unfolding key_set delete_absent
broadcast_users user_ids stream_not_exist failed =
    delete_absent failed (delete_absent stream_not_exist (key_set user_ids))

module _ (env : Env) where
  unfoldable pub send_meeting_host_data2_client :
      String → String → String → String → Exec (Unit {0})
  unfolding get_user_info send_room_data
  send_meeting_host_data2_client room_id operate_user_id user_id host_type = do
    user_info ← get_user_info env operate_user_id
    send_room_data env room_id (some (user_id ∷ [])) (record {
      operator_user_id = operate_user_id;
      message_type = meeting_host_data user_info.nickname user_id host_type;
    })

  unfoldable pub send_stream_operate_data2_client :
      Context → String → String → Option Bool → Option Bool → Exec (Unit {0})
  unfolding send_room_data operations
  send_stream_operate_data2_client ctx room_id user_id camera_on microphone_on =
      send_room_data env room_id (some (user_id ∷ [])) (record {
        operator_user_id = ctx.op_user_id;
        message_type = stream_operate_data (operations camera_on microphone_on (user_id ∷ []));
      })

  unfoldable pub broadcast_stream_operate_data :
      Context → OperateRoomAllStreamReq → List String → List String → Exec (Unit {0})
  unfolding get_participant_user_ids send_room_data broadcast_users operations
  broadcast_stream_operate_data ctx req stream_not_exist failed = do
    user_ids ← get_participant_user_ids env req.meeting_id
    set_user_ids ←
        (λ p. (ok (env.range_order p.calls (broadcast_users user_ids stream_not_exist failed)), p))
    send_room_data env req.meeting_id none (record {
      operator_user_id = ctx.op_user_id;
      message_type =
          stream_operate_data (operations req.camera_on_entry req.microphone_on_entry set_user_ids);
    })

  unfoldable pub notify_kick_off_meeting_info2_client :
      Context → String → String → String → ℤ → Exec (Unit {0})
  unfolding get_user_info send_room_data
  notify_kick_off_meeting_info2_client ctx room_id user_id reason reason_code = do
    user_info ← get_user_info env user_id
    send_room_data env room_id none (record {
      operator_user_id = ctx.op_user_id;
      message_type = kick_off_meeting_data user_id user_info.nickname reason_code reason;
    })

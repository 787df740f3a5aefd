-- ===== src/Meeting/Hosting/Rights.antt =====
-- Only the host or the creator of a room changes its participants or its hosts.
use openmeeting_server.Base.{String, ◌≡◌, ◌≢◌, false, eq_iff, List, arith, Option}
use openmeeting_server.Result.{ok, err, coded}
use openmeeting_server.Constants.{meeting_auth_check_error}
use openmeeting_server.Wire.{MeetingMetadata}
use openmeeting_server.Env
use openmeeting_server.Env.{Env, Process, Exec, writes, unless, ◌>>=◌}
use openmeeting_server.LiveKit.{get_room_data}
use openmeeting_server.Meeting.Permission.{check_auth_permission}
use openmeeting_server.Meeting.Convert.{get_host_user_id, get_creator_user_id}
use openmeeting_server.Meeting.Hosting.{
  may_operate, modify_meeting_participant_nick_name, remove_participants, set_meeting_host_info,
}
use openmeeting_server.ReadOnly.Services.{get_room_data-ReadsOnly}

-- The action is refused and has changed nothing.
abbrev pub Refused : {A : Type 0} → Exec A → Process → Type 0
Refused m p =
    ((m p).0 ≡ err (coded meeting_auth_check_error)) × (writes (m p).1.calls ≡ writes p.calls)

module _ (env : Env) (meeting_id user_id : String) (p : Process) (meta_data : MeetingMetadata)
    (found : (get_room_data env meeting_id p).0 ≡ ok meta_data)
    (not_host : get_host_user_id meta_data ≢ user_id)
    (not_creator : get_creator_user_id meta_data ≢ user_id) where
  may_not : may_operate meta_data user_id ≡ false
  unfolding check_auth_permission
  may_not = ground (
    arith,
    eq_iff (get_host_user_id meta_data) user_id,
    eq_iff (get_creator_user_id meta_data) user_id,
  )

  guarded-Refused :
      {A : Type 0} (body : MeetingMetadata → Exec A)
      → Refused
          (get_room_data env meeting_id >>= λ m.
            unless (may_operate m user_id) (coded meeting_auth_check_error) (body m))
          p
  guarded-Refused body = (
    rw (found, may_not, Env.continue, Env.unless),
    rw (found, may_not, Env.continue, Env.unless) ((get_room_data-ReadsOnly env meeting_id).at p),
  )

  -- For a user who is neither host nor creator of the room: renaming a participant, removing
  -- participants and changing the hosts are each refused with an authorisation error, and change
  -- nothing.
  pub outsider-Refused :
      (participant nickname : String) (ids co_hosts : List String) (host : Option String)
      → Refused
          (modify_meeting_participant_nick_name env (record {
            meeting_id = meeting_id;
            user_id = user_id;
            participant_user_id = participant;
            nickname = nickname;
          }))
          p
        × Refused
            (remove_participants env
              (record { meeting_id = meeting_id; user_id = user_id; participant_user_ids = ids }))
            p
        × Refused
            (set_meeting_host_info env (record {
              meeting_id = meeting_id;
              user_id = user_id;
              host_user_id = host;
              co_host_user_ids = co_hosts;
            }))
            p
  unfolding modify_meeting_participant_nick_name remove_participants set_meeting_host_info
  outsider-Refused participant nickname ids co_hosts host =
      (guarded-Refused _, guarded-Refused _, guarded-Refused _)

-- ===== src/Meeting/Ending/Rights.antt =====
-- Who may end a meeting.
use openmeeting_server.Base.{String, ◌≡◌, ◌≢◌, false, eq_iff, arith, ◌∙◌}
use openmeeting_server.Result.{ok, err, coded}
use openmeeting_server.Constants.{meeting_auth_check_error}
use openmeeting_server.Model.{MeetingInfo}
use openmeeting_server.Env
use openmeeting_server.Env.{Env, Process, writes}
use openmeeting_server.Storage.{take_with_error}
use openmeeting_server.LiveKit.{get_room_data}
use openmeeting_server.Meeting.Requests.{EndMeetingReq}
use openmeeting_server.Meeting.Permission.{check_auth_permission}
use openmeeting_server.Meeting.Ending.{host_or_creator, end_meeting}
use openmeeting_server.ReadOnly.Services.{take_with_error-ReadsOnly, get_room_data-ReadsOnly}

not_allowed :
    (creator host user : String)
    → host ≢ user
    → creator ≢ user
    → check_auth_permission creator host user ≡ false
unfolding check_auth_permission
not_allowed creator host user h c = ground (arith, eq_iff host user, eq_iff creator user)

module _ (env : Env) (req : EndMeetingReq) (p : Process) where
  -- A user who is neither the creator of the stored meeting nor the host of its room gets an
  -- authorisation error, and nothing is changed: the room stays open and the meeting stays stored.
  pub end_meeting_denied :
      (db_info : MeetingInfo)
      → let taken = take_with_error env req.meeting_id p in
        let room = get_room_data env req.meeting_id taken.1 in
        taken.0 ≡ ok db_info
        → db_info.creator_user_id ≢ req.user_id
        → host_or_creator db_info room.0 ≢ req.user_id
        → ((end_meeting env req p).0 ≡ err (coded meeting_auth_check_error))
          × (writes (end_meeting env req p).1.calls ≡ writes p.calls)
  unfolding end_meeting
  end_meeting_denied db_info taken creator host =
      let p' = (take_with_error env req.meeting_id p).1 in
      let denied =
        not_allowed db_info.creator_user_id
          (host_or_creator db_info (get_room_data env req.meeting_id p').0) req.user_id host
          creator in
      (
        rw (taken, denied, Env.continue, Env.unless),
        rw (taken, denied, Env.continue, Env.unless)
            ((get_room_data-ReadsOnly env req.meeting_id).at p'
              ∙ (take_with_error-ReadsOnly env req.meeting_id).at p),
      )

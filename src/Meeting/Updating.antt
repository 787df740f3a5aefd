-- ===== src/Meeting/Updating.antt =====
-- `UpdateMeeting` and `updateMeetingMetaData` of internal/rpc/meeting/meeting.go.
use openmeeting_server.Base.{String, List, [], ◌∷◌, not, ◌==◌}
use openmeeting_server.Result.{Result, ok, err, coded}
use openmeeting_server.Constants.{completed, meeting_complete_error}
use openmeeting_server.Wire.{MeetingMetadata}
use openmeeting_server.Env.{Env, Change, Exec, pure, attempt, unless, ◌>>=◌, ◌>>◌}
use openmeeting_server.Storage.{take_with_error, update}
use openmeeting_server.LiveKit.{get_room_data, update_meta_data}
use openmeeting_server.Meeting.Requests.{UpdateMeetingRequest}
use openmeeting_server.Meeting.Convert.{get_meeting_detail_setting}
use openmeeting_server.Meeting.Convert.Update.{get_db_update_data}

module _ (env : Env) where
  -- The latest stored meeting goes into the metadata of the room.
  unfoldable pub update_meeting_meta_data : String → MeetingMetadata → Exec (Unit {0})
  unfolding take_with_error get_meeting_detail_setting update_meta_data
  update_meeting_meta_data meeting_id meta_data = do
    info ← take_with_error env meeting_id
    detail ← get_meeting_detail_setting env info
    update_meta_data env (record meta_data { detail = detail })

  -- With no room there is no metadata to bring up to date.
  publish : String → Result MeetingMetadata → Exec (Unit {0})
  unfolding update_meeting_meta_data
  publish meeting_id (err e) = pure tt
  publish meeting_id (ok meta_data) = update_meeting_meta_data meeting_id meta_data

  apply_update : String → Result MeetingMetadata → List Change → Exec (Unit {0})
  unfolding update publish
  apply_update meeting_id meta_data [] = pure tt
  apply_update meeting_id meta_data (c ∷ cs) = do
    update env meeting_id (c ∷ cs)
    publish meeting_id meta_data

  unfoldable pub update_meeting : UpdateMeetingRequest → Exec (Unit {0})
  unfolding take_with_error get_room_data get_db_update_data apply_update
  update_meeting req = do
    info ← take_with_error env req.meeting_id
    unless (not (info.status == completed)) (coded meeting_complete_error) (do
      meta_data ← attempt (get_room_data env req.meeting_id)
      apply_update req.meeting_id meta_data (get_db_update_data env info req))

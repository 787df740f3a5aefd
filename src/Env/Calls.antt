-- ===== src/Env/Calls.antt =====
-- The calls that leave the process, and the answers of the environment.
use openmeeting_server.Base.{String, List, Bool, true, false, Option, ℕ}
use openmeeting_server.Base.Int.{ℤ}
use openmeeting_server.Model
use openmeeting_server.Wire.{NotifyMeetingData}

-- A key and a value of an update document. A nil value is an empty list of days.
pub data Change : Type 0 where
  title status password time_zone repeat_type uint_type setting : String → Change
  scheduled_time meeting_duration end_date repeat_times interval : ℤ → Change
  repeat_day_of_week : List ℤ → Change

-- The claims of a join token.
pub record Grant : Type 0 where
  pub room : String
  pub identity : String
  pub hidden : Bool
  pub metadata : Option String

pub data Call : Type 0 where
  -- LiveKit's room service
  list_rooms : List String → Call
  create_room : String → String → Call
  update_room_metadata : String → String → Call
  delete_room : String → Call
  remove_participant : String → String → Call
  list_participants : String → Call
  update_participant : String → String → String → String → Call
  send_data : String → List String → NotifyMeetingData → Call
  to_jwt : Grant → Call
  -- the user service
  get_designate_users : List String → Call
  -- MongoDB
  insert_meetings : List Model.MeetingInfo → Call
  find_meeting : String → Call
  update_meeting : String → List Change → Call
  delete_meeting : String → Call
  find_meetings : List String → Option String → Call
  insert_users : List Model.User → Call
  find_user : String → Call
  find_user_by_account : String → Call
  -- Redis and its cache client
  fetch : String → Call
  store : String → String → Call
  tag_as_deleted : String → Call
  incr : String → Call
  -- with the seconds until the key expires
  set_key : String → String → ℕ → Call
  read_key : String → Call
  remove_key : String → Call
  -- the clock, and the source of random numbers
  current_time : Call
  random : Call
  -- a remote procedure by its name: the way there, and the way back
  rpc_request : String → Call
  rpc_response : String → Call

-- The calls that change a room, its participants, a stored meeting or user, a key or a counter, or
-- that send a message. Not among them: reads, the signing of a token, the clock, and the value that a
-- read through the cache leaves there.
abbrev pub is_write : Call → Bool
is_write (create_room _ _) = true
is_write (update_room_metadata _ _) = true
is_write (delete_room _) = true
is_write (remove_participant _ _) = true
is_write (update_participant _ _ _ _) = true
is_write (send_data _ _ _) = true
is_write (insert_meetings _) = true
is_write (update_meeting _ _) = true
is_write (delete_meeting _) = true
is_write (tag_as_deleted _) = true
is_write (incr _) = true
is_write (insert_users _) = true
is_write (set_key _ _ _) = true
is_write (remove_key _) = true
is_write _ = false

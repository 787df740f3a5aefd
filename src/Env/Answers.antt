-- ===== src/Env/Answers.antt =====
-- The environment: an answer for each call, and the pure functions of other packages.
use openmeeting_server.Base.{String, List, Bool, Option, ℕ}
use openmeeting_server.Base.Int.{ℤ}
use openmeeting_server.Calendar.{Time, Location}
use openmeeting_server.Result.{Result, Err}
use openmeeting_server.Model
use openmeeting_server.Wire.{
  MeetingMetadata, MeetingSetting, ParticipantMetaData, UserInfo, NotifyMeetingData, Room,
  ParticipantInfo,
}
use openmeeting_server.Env.Calls.{Call, Change, Grant}
use openmeeting_server.Env.Monad.{Exec}

-- What the cache client does with a read: it serves a stored value, it has none and will call the
-- function it was given, or it fails.
pub data Fetched : Type 0 where
  served : String → Fetched
  missing : Fetched
  unreachable : Err → Fetched

-- What an access token says; the times are in seconds since 1970.
pub record Claims : Type 0 where
  pub user_id : String
  pub expires_at : ℤ
  pub issued_at : ℤ
  pub not_before : ℤ

-- What `jwt.ParseWithClaims` gives: a validation error with three of its flags, another error, or a
-- token, with its claims if they are of the program's type, and its flag `Valid`.
pub data Parsed : Type 0 where
  invalid : Bool → Bool → Bool → Parsed
  failed : Parsed
  parsed : Option Claims → Bool → Parsed

pub record Env : Type 0 where
  pub list_rooms_answer : List Call → List String → Result (List Room)
  pub create_room_answer : List Call → String → String → Result Room
  pub update_room_metadata_answer : List Call → String → String → Result (Unit {0})
  pub delete_room_answer : List Call → String → Result (Unit {0})
  pub remove_participant_answer : List Call → String → String → Result (Unit {0})
  pub list_participants_answer : List Call → String → Result (List ParticipantInfo)
  pub update_participant_answer : List Call → String → String → String → String → Result (Unit {0})
  pub send_data_answer : List Call → String → List String → NotifyMeetingData → Result (Unit {0})
  pub to_jwt_answer : List Call → Grant → Result String
  pub get_designate_users_answer : List Call → List String → Result (List UserInfo)
  pub insert_meetings_answer : List Call → List Model.MeetingInfo → Result (Unit {0})
  pub find_meeting_answer : List Call → String → Result Model.MeetingInfo
  pub update_meeting_answer : List Call → String → List Change → Result (Unit {0})
  pub delete_meeting_answer : List Call → String → Result (Unit {0})
  pub find_meetings_answer :
      List Call → List String → Option String → Result (List Model.MeetingInfo)
  pub insert_users_answer : List Call → List Model.User → Result (Unit {0})
  pub find_user_answer : List Call → String → Result Model.User
  pub find_user_by_account_answer : List Call → String → Result Model.User
  pub set_key_answer : List Call → String → String → Result (Unit {0})
  pub read_key_answer : List Call → String → Result String
  pub remove_key_answer : List Call → String → Result (Unit {0})
  pub rpc_request_answer : List Call → String → Result (Unit {0})
  pub rpc_response_answer : List Call → String → Result (Unit {0})
  -- what `Intn` of a fresh source of random numbers gives, by the bound and the count of calls before
  pub random_answer : List Call → ℕ → ℕ → ℕ
  pub fetch_answer : List Call → String → Fetched
  pub store_answer : List Call → String → String → Result (Unit {0})
  pub tag_as_deleted_answer : List Call → String → Result (Unit {0})
  pub incr_answer : List Call → String → Result ℤ
  -- `time.Now`
  pub time_answer : List Call → Time
  -- pkg `timeutil`: the clock in seconds, the midnight before it, and what holds of it and a moment
  pub timestamp_answer : List Call → ℤ
  pub day_zero_answer : List Call → ℤ
  pub timestamp_by_timezone_answer : List Call → String → Result ℤ
  pub is_same_weekday_answer : List Call → String → ℤ → Result Bool
  pub is_same_day_of_month_answer : List Call → String → ℤ → Result Bool
  pub is_nth_day_cycle_answer : List Call → String → ℤ → ℤ → Result Bool
  pub is_nth_week_cycle_answer : List Call → String → ℤ → ℤ → Result Bool
  pub is_nth_month_cycle_answer : List Call → String → ℤ → ℤ → Result Bool
  pub is_weekday : ℤ → Bool
  -- the time zone database, and the zone of the machine
  pub load_location : String → Option Location
  pub local : Location
  -- the order in which Go ranges over a map with these keys, unspecified by the language
  pub range_order : List Call → List String → List String
  -- encoding/json and jsonpb on the generated messages
  pub marshal_metadata : MeetingMetadata → Result String
  pub unmarshal_metadata : String → Result MeetingMetadata
  pub marshal_participant : ParticipantMetaData → Result String
  pub unmarshal_participant : String → Result ParticipantMetaData
  pub marshal_setting : Option MeetingSetting → Result String
  pub unmarshal_setting : String → Result MeetingSetting
  pub marshal_meeting : Model.MeetingInfo → Result String
  pub unmarshal_meeting : String → Result Model.MeetingInfo
  pub marshal_user : Model.User → Result String
  pub unmarshal_user : String → Result Model.User
  -- whether the error code that is registered for an error is that of a missing record
  pub has_not_found_code : Err → Bool
  -- the hexadecimal MD5 sum
  pub md5_hex : String → String
  -- the JWT library: signing with HS256, and parsing at a moment, in seconds since 1970
  pub sign_claims : Claims → String → Result String
  pub parse_claims : ℤ → String → String → Parsed
  -- `proto.Marshal` of a notification
  pub marshal_notification : NotifyMeetingData → Result (Unit {0})
  -- `datautil.DuplicateAny` on the keys
  pub duplicate_any : List String → Bool
  -- the codes of two reasons for leaving a meeting, from the protocol
  pub duplicated_login : ℤ
  pub logout : ℤ
  -- the configured addresses of the LiveKit servers
  pub urls : List String
  -- `tx.Tx.Transaction` of the database client
  pub transaction : Exec (Unit {0}) → Exec (Unit {0})
  -- `datautil.Single`: what stands in only one of two lists
  pub single : List String → List String → List String

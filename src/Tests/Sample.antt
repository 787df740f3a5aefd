-- ===== src/Tests/Sample.antt =====
-- A concrete environment: one open room, one stored meeting, two users, a clock that stands.
use openmeeting_server.Base.{
  Bool, ◌&&◌, ◌-◌, String, List, [], ◌∷◌, false, true, none, some, ◌==◌, if◌then◌else◌, ◌^◌, ◌%◌,
}
use openmeeting_server.Base.Lists.{length, contains}
use openmeeting_server.Base.Int.{pos, negsuc, eqb_ℤ}
use openmeeting_server.Constants.{scheduled}
use openmeeting_server.Result.{Result, ok, err, plain, record_not_found, is_record_not_found}
use openmeeting_server.Model
use openmeeting_server.Calendar.{Time, Location}
use openmeeting_server.Wire.{
  no_setting, MeetingMetadata, PersonalData, UserInfo, Room, ParticipantInfo,
}
use openmeeting_server.Env
use openmeeting_server.Env.{Env, missing, Call, Claims, invalid}
use openmeeting_server.Token.{check_claims}

abbrev pub db_info : Model.MeetingInfo
db_info = record {
  meeting_id = "m1";
  title = "weekly";
  scheduled_time = pos 1700000000;
  meeting_duration = pos 3600;
  password = "secret";
  creator_user_id = "creator";
  status = scheduled;
  start_time = pos 1700000000;
  time_zone = "UTC";
  end_date = pos 0;
  repeat_times = pos 0;
  repeat_type = "";
  uint_type = "";
  interval = pos 0;
  repeat_day_of_week = [];
  setting = "";
}

abbrev pub entry : String → PersonalData
entry id = record {
  user_id = id;
  personal_setting = record { camera_on_entry = true; microphone_on_entry = false };
  limit_setting = record { camera_on_entry = true; microphone_on_entry = true };
}

abbrev pub meta_data : MeetingMetadata
meta_data = record {
  detail = record {
    info = record {
      system_generated = record {
        creator_user_id = "creator";
        status = scheduled;
        start_time = pos 1700000000;
        meeting_id = "m1";
        creator_nickname = "C";
      };
      creator_defined_meeting = record {
        title = "weekly";
        scheduled_time = pos 1700000000;
        meeting_duration = pos 3600;
        password = "secret";
        time_zone = "UTC";
        host_user_id = "host";
        co_host_user_id = [];
      };
    };
    setting = some no_setting;
    repeat_info = none;
  };
  personal_data = entry "creator" ∷ entry "host" ∷ [];
}

abbrev pub user : String → UserInfo
user id = record { user_id = id; nickname = "N"; account = "A" }

abbrev pub first_user : List String → List UserInfo
first_user [] = []
first_user (id ∷ ids) = user id ∷ []

abbrev pub room : Room
room = record { name = "m1"; sid = "sid"; metadata = "META" }

abbrev pub now : Time
now = record { sec = pos 63835596800; nsec = 0 }

abbrev pub utc : Location
utc s = record { offset = pos 0; start = negsuc (2 ^ 63 - 1); finish = pos (2 ^ 63 - 1) }

abbrev pub participants : List String → List ParticipantInfo
participants [] = []
participants (id ∷ ids) = record { identity = id; metadata = "ONE" } ∷ participants ids

abbrev pub claims : Claims
claims = record {
  user_id = "u1";
  expires_at = pos 1700604800;
  issued_at = pos 1700000000;
  not_before = pos 1699999940;
}

-- The one set of claims that is signed
abbrev pub is_sample : Claims → Bool
is_sample c =
    c.user_id == "u1"
    && (eqb_ℤ c.expires_at (pos 1700604800)
        && (eqb_ℤ c.issued_at (pos 1700000000) && eqb_ℤ c.not_before (pos 1699999940)))

-- The last value set, if the key was not removed since.
abbrev pub read_latest : String → List Call → Result String
read_latest key [] = err record_not_found
read_latest key (Env.set_key k v ttl ∷ h) = if k == key then ok v else read_latest key h
read_latest key (Env.remove_key k ∷ h) =
    if k == key then err record_not_found else read_latest key h
read_latest key (_ ∷ h) = read_latest key h

abbrev pub stored_user : String → Model.User
stored_user id = record {
  user_id = id;
  account = "acc";
  nickname = "N";
  password = "pwsalt";
  salt_value = "salt";
}

abbrev pub has_duplicates : List String → Bool
has_duplicates [] = false
has_duplicates (x ∷ xs) = if contains x xs then true else has_duplicates xs

-- `ids` are the participants of the room.
abbrev pub sample_with : List String → Env
sample_with ids = record {
  list_rooms_answer = λ h names. ok (room ∷ []);
  create_room_answer = λ h id text. ok room;
  update_room_metadata_answer = λ h id text. ok tt;
  delete_room_answer = λ h id. ok tt;
  remove_participant_answer = λ h id user_id. if user_id == "gone" then err plain else ok tt;
  list_participants_answer = λ h id. ok (participants ids);
  update_participant_answer = λ h id user_id text nickname. ok tt;
  send_data_answer = λ h id ids' message. ok tt;
  to_jwt_answer = λ h grant. ok "jwt";
  get_designate_users_answer = λ h ids'. ok (first_user ids');
  insert_meetings_answer = λ h meetings. ok tt;
  find_meeting_answer = λ h id. ok db_info;
  update_meeting_answer = λ h id changes. ok tt;
  delete_meeting_answer = λ h id. ok tt;
  find_meetings_answer = λ h status creator. ok (db_info ∷ []);
  insert_users_answer = λ h users. ok tt;
  find_user_answer = λ h id. ok (stored_user id);
  find_user_by_account_answer = λ h account. ok (stored_user account);
  set_key_answer = λ h key value. ok tt;
  read_key_answer = λ h key. read_latest key h;
  remove_key_answer = λ h key. ok tt;
  rpc_request_answer = λ h name. ok tt;
  rpc_response_answer = λ h name. ok tt;
  random_answer = λ h bound n. n % bound;
  fetch_answer = λ h key. missing;
  store_answer = λ h key text. ok tt;
  tag_as_deleted_answer = λ h key. ok tt;
  incr_answer = λ h key. ok (pos (length h));
  time_answer = λ h. now;
  timestamp_answer = λ h. pos 1700000000;
  day_zero_answer = λ h. pos 1699920000;
  timestamp_by_timezone_answer = λ h zone. ok (pos 1700000000);
  is_same_weekday_answer = λ h zone t. ok true;
  is_same_day_of_month_answer = λ h zone t. ok true;
  is_nth_day_cycle_answer = λ h zone t n. ok true;
  is_nth_week_cycle_answer = λ h zone t n. ok true;
  is_nth_month_cycle_answer = λ h zone t n. ok true;
  is_weekday = λ t. true;
  load_location = λ name. some utc;
  local = utc;
  range_order = λ h keys. keys;
  marshal_metadata = λ m. ok "META";
  unmarshal_metadata = λ text. ok meta_data;
  marshal_participant = λ one. ok "ONE";
  unmarshal_participant = λ text. ok (record { user_info = user "creator" });
  marshal_setting = λ s. ok "SETTING";
  unmarshal_setting = λ text. ok no_setting;
  marshal_meeting = λ m. ok "MEETING";
  unmarshal_meeting = λ text. ok db_info;
  marshal_user = λ u. ok "USER";
  unmarshal_user = λ text. ok (stored_user "u1");
  has_not_found_code = is_record_not_found;
  md5_hex = λ text. text;
  sign_claims = λ claims secret. if is_sample claims then ok "TOKEN" else err plain;
  parse_claims = λ time text secret.
      if text == "TOKEN" then check_claims time claims else invalid true false false;
  marshal_notification = λ n. ok tt;
  duplicate_any = has_duplicates;
  duplicated_login = pos 1;
  logout = pos 2;
  urls = "a" ∷ "b" ∷ [];
  transaction = λ m p. m p;
  single = λ xs ys. [];
}

abbrev pub sample : Env
sample = sample_with ("host" ∷ [])

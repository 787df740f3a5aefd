-- ===== src/Meeting/Personal/Limits.antt =====
-- What a user's own change of the personal settings leaves alone, and what the host's limits do.
use openmeeting_server.Base.{
  ◌∙◌, String, List, [], ◌∷◌, ◌≡◌, refl, false, Option, none, some, ◌==◌, eq_iff, arith,
  if◌then◌else◌, ap,
}
use openmeeting_server.Wire.{MeetingMetadata, PersonalData, MeetingSetting}
use openmeeting_server.Meeting.Requests.{SetPersonalMeetingSettingsReq}
use openmeeting_server.Meeting.Personal.Entries.{
  find_personal, store_personal, with_personal, with_values, value_or,
}
use openmeeting_server.Meeting.Personal.{
  entry_of, self_personal_data, participant_personal_data, or_default,
}
use openmeeting_server.Meeting.Permission.{check_user_enable_camera}
use openmeeting_server.Meeting.Convert.{generate_default_personal_data}

find_personal-store_personal :
    (x : String) (one : PersonalData) (entries : List PersonalData)
    → find_personal x (store_personal one entries)
      ≡ (if one.user_id == x then some one else find_personal x entries)
unfolding find_personal store_personal
find_personal-store_personal x one [] = refl
find_personal-store_personal x one (e ∷ entries) = ground (
  arith,
  find_personal-store_personal x one entries,
  eq_iff e.user_id one.user_id,
  eq_iff one.user_id x,
  eq_iff e.user_id x,
)

user_id-found :
    (user_id : String) (entries : List PersonalData) (one : PersonalData)
    → find_personal user_id entries ≡ some one
    → one.user_id ≡ user_id
unfolding find_personal
user_id-found user_id [] one h = absurd (cc h)
user_id-found user_id (e ∷ entries) one h =
    ground (arith, h, eq_iff e.user_id user_id, user_id-found user_id entries one)

user_id-either :
    (meta_data : MeetingMetadata) (user_id : String) (r : Option PersonalData)
    → find_personal user_id meta_data.personal_data ≡ r
    → (or_default user_id r).user_id ≡ user_id
unfolding or_default generate_default_personal_data
user_id-either meta_data user_id none e = refl
user_id-either meta_data user_id (some one) e = user_id-found user_id meta_data.personal_data one e

user_id-entry_of :
    (meta_data : MeetingMetadata) (user_id : String)
    → (entry_of meta_data user_id).user_id ≡ user_id
unfolding entry_of
user_id-entry_of meta_data user_id =
    user_id-either meta_data user_id (find_personal user_id meta_data.personal_data) refl

-- After a user's own change the metadata holds the changed entry of the user, whose limits are those of
-- the entry before, or the default ones if there was none; the entries of all other users, and the rest
-- of the metadata, are as they were.
pub self_personal_data-others :
    (meta_data : MeetingMetadata) (req : SetPersonalMeetingSettingsReq) (x : String)
    → let one = self_personal_data meta_data req in
      let after = with_personal meta_data one in
      (find_personal x after.personal_data
        ≡ (if req.user_id == x then some one else find_personal x meta_data.personal_data))
      × (one.limit_setting ≡ (entry_of meta_data req.user_id).limit_setting)
      × (after.detail ≡ meta_data.detail)
unfolding self_personal_data with_personal
self_personal_data-others meta_data req x = (
  find_personal-store_personal x (self_personal_data meta_data req) meta_data.personal_data
      ∙ ap
          (λ id.
            if id == x
            then some (self_personal_data meta_data req)
            else find_personal x meta_data.personal_data)
          (user_id-entry_of meta_data req.user_id),
  refl,
  refl,
)

entry_of-with_personal :
    (meta_data : MeetingMetadata) (one : PersonalData) (user_id : String)
    → one.user_id ≡ user_id
    → entry_of (with_personal meta_data one) user_id ≡ one
unfolding entry_of with_personal or_default
entry_of-with_personal meta_data one user_id e =
    let found : find_personal user_id (store_personal one meta_data.personal_data) ≡ some one =
      find_personal-store_personal user_id one meta_data.personal_data
      ∙ ground (arith, eq_iff one.user_id user_id, e) in
    ap (or_default user_id) found

-- Once the host has switched a user's camera off, no change that the user makes to the own settings
-- right after allows the camera, whatever the room allows.
pub host_limit_lasts :
    (meta_data : MeetingMetadata) (setting : MeetingSetting)
    (host_req self_req : SetPersonalMeetingSettingsReq)
    → host_req.user_id ≡ self_req.user_id
    → host_req.camera_on_entry ≡ some false
    → let limited = with_personal meta_data (participant_personal_data meta_data host_req) in
      check_user_enable_camera setting (self_personal_data limited self_req) ≡ false
unfolding self_personal_data participant_personal_data check_user_enable_camera with_values value_or
host_limit_lasts meta_data setting host_req self_req same off =
    rw
      (
        entry_of-with_personal meta_data (participant_personal_data meta_data host_req)
            self_req.user_id (user_id-entry_of meta_data host_req.user_id ∙ same),
        off,
      )
      ground arith

-- ===== src/Meeting/Personal/Entries.antt =====
-- The list `metaData.PersonalData` as the loops of internal/rpc/meeting/logic.go use it: the first
-- entry of a user counts.
use openmeeting_server.Base.{
  String, List, [], ◌∷◌, Bool, true, false, Option, none, some, ◌==◌, if◌then◌else◌,
}
use openmeeting_server.Wire.{PersonalData, PersonalMeetingSetting, MeetingMetadata}

unfoldable pub find_personal : String → List PersonalData → Option PersonalData
find_personal user_id [] = none
find_personal user_id (one ∷ rest) =
    if one.user_id == user_id then some one else find_personal user_id rest

-- The list after the found entry was changed, or after a new one was appended.
unfoldable pub store_personal : PersonalData → List PersonalData → List PersonalData
store_personal personal_data [] = personal_data ∷ []
store_personal personal_data (one ∷ rest) =
    if one.user_id == personal_data.user_id
    then personal_data ∷ rest
    else one ∷ store_personal personal_data rest

unfoldable pub with_personal : MeetingMetadata → PersonalData → MeetingMetadata
unfolding store_personal
with_personal meta_data personal_data = record meta_data {
  personal_data = store_personal personal_data meta_data.personal_data;
}

unfoldable pub is_found : String → List PersonalData → Bool
unfolding find_personal
is_found user_id personal_data = elim (find_personal user_id personal_data) [
  | none ↦ false
  | some one ↦ true
]

unfoldable pub no_value : Option Bool → Bool
no_value none = true
no_value (some v) = false

-- A value that is absent changes nothing.
unfoldable pub value_or : Option Bool → Bool → Bool
value_or none old = old
value_or (some v) old = v

unfoldable pub with_values :
    Option Bool → Option Bool → PersonalMeetingSetting → PersonalMeetingSetting
unfolding value_or
with_values camera_on microphone_on old = record {
  camera_on_entry = value_or camera_on old.camera_on_entry;
  microphone_on_entry = value_or microphone_on old.microphone_on_entry;
}

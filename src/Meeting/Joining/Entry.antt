-- ===== src/Meeting/Joining/Entry.antt =====
-- What a join leaves in the metadata of the room.
use openmeeting_server.Base.{
  String, List, [], ◌∷◌, ◌++◌, ◌≡◌, refl, Bool, true, false, Option, none, some, ◌==◌, eq_iff,
  arith, if◌then◌else◌,
}
use openmeeting_server.Wire.{MeetingMetadata, PersonalData}
use openmeeting_server.Meeting.Convert.{generate_default_personal_data}
use openmeeting_server.Meeting.Personal.Entries.{find_personal, is_found}
use openmeeting_server.Meeting.Joining.{with_entry_for}

find_personal-append :
    (x : String) (entries : List PersonalData) (one : PersonalData)
    → find_personal x (entries ++ one ∷ []) ≡ (elim (find_personal x entries) [
      | some old ↦ some old
      | none ↦ if one.user_id == x then some one else none
    ])
unfolding find_personal
find_personal-append x [] one = ground arith
find_personal-append x (e ∷ entries) one = ground (arith, find_personal-append x entries one)

-- An entry that is found under `user_id` makes the default one unnecessary.
found_or_other :
    (user_id x : String) (entries : List PersonalData) (one : PersonalData)
    → is_found user_id entries ≡ true
    → (r : Option PersonalData) → find_personal x entries ≡ r
    → r ≡ (elim r [ some old ↦ some old | none ↦ if user_id == x then some one else none ])
unfolding is_found
found_or_other user_id x entries one found (some old) e = refl
found_or_other user_id x entries one found none e = ground (arith, eq_iff user_id x, found, e)

-- Either answer of the search for the user.
found_or_appended :
    (x : String) (meta_data : MeetingMetadata) (one : PersonalData) (b : Bool)
    → is_found one.user_id meta_data.personal_data ≡ b
    → find_personal x
        (if b then meta_data else record meta_data {
          personal_data = meta_data.personal_data ++ one ∷ [];
        }).personal_data
      ≡ (elim (find_personal x meta_data.personal_data) [
        | some old ↦ some old
        | none ↦ if one.user_id == x then some one else none
      ])
found_or_appended x meta_data one true found =
    found_or_other one.user_id x meta_data.personal_data one found
      (find_personal x meta_data.personal_data) refl
found_or_appended x meta_data one false found = find_personal-append x meta_data.personal_data one

detail_kept :
    (meta_data other : MeetingMetadata) (b : Bool)
    → other.detail ≡ meta_data.detail
    → (if b then meta_data else other).detail ≡ meta_data.detail
detail_kept meta_data other true e = refl
detail_kept meta_data other false e = e

-- After a join the user has an entry: the one that was there, or else the default one; the entries of
-- all other users are as they were, and so is the rest of the metadata.
pub with_entry_for_entries :
    (user_id : String) (meta_data : MeetingMetadata) (x : String)
    → (find_personal x (with_entry_for user_id meta_data).personal_data
        ≡ (elim (find_personal x meta_data.personal_data) [
          | some old ↦ some old
          | none ↦ if user_id == x then some (generate_default_personal_data user_id) else none
        ]))
      × ((with_entry_for user_id meta_data).detail ≡ meta_data.detail)
unfolding with_entry_for generate_default_personal_data
with_entry_for_entries user_id meta_data x = (
  found_or_appended x meta_data (generate_default_personal_data user_id)
      (is_found user_id meta_data.personal_data) refl,
  detail_kept meta_data _ (is_found user_id meta_data.personal_data) refl,
)

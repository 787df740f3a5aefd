-- ===== src/Storage/Key.antt =====
-- pkg/common/cachekey, and the key that the meeting cache builds with it.
use Prim.Native.String.{◌++◌}
use openmeeting_server.Base.{String}

abbrev pub user_info_key : String
user_info_key = "USER_INFO:"

abbrev pub user_token_key : String
user_token_key = "USER_TOKEN:"

abbrev pub generate_meeting_id_key : String
generate_meeting_id_key = "GENERATE_MEETING_ID_KEY"

abbrev pub generate_user_id_key : String
generate_user_id_key = "GENERATE_USER_ID_KEY"

unfoldable pub get_user_info_key : String → String
get_user_info_key user_id = user_info_key ++ user_id

unfoldable pub get_user_token_key : String → String
get_user_token_key user_id = user_token_key ++ user_id

-- `Meeting.getMeetingInfoKey` of the meeting cache
unfoldable pub get_meeting_info_key : String → String
unfolding get_user_info_key
get_meeting_info_key meeting_id = get_user_info_key meeting_id

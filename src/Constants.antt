-- ===== src/Constants.antt =====
-- The names and codes that the program shares: pkg/common/constant/meeting.go and
-- pkg/common/servererrs/code.go.
use openmeeting_server.Base.{ℕ, String}

-- Status of a meeting.
abbrev pub scheduled : String
scheduled = "Scheduled"

abbrev pub in_progress : String
in_progress = "In-Progress"

abbrev pub completed : String
completed = "Completed"

-- How a meeting repeats.
abbrev pub none_repeat : String
none_repeat = "None"

abbrev pub repeat_daily : String
repeat_daily = "Daily"

abbrev pub repeat_weekly : String
repeat_weekly = "Weekly"

abbrev pub repeat_week_day : String
repeat_week_day = "WeekDay"

abbrev pub repeat_month : String
repeat_month = "Monthly"

abbrev pub repeat_custom : String
repeat_custom = "Custom"

abbrev pub unit_type_day : String
unit_type_day = "Day"

abbrev pub unit_type_week : String
unit_type_week = "Week"

abbrev pub unit_type_month : String
unit_type_month = "Month"

abbrev pub host_type_host : String
host_type_host = "Host"

abbrev pub host_type_co_host : String
host_type_co_host = "CoHost"

abbrev pub kick_off_duplicated_login : String
kick_off_duplicated_login = "Duplicated Login"

abbrev pub kick_off_logout : String
kick_off_logout = "Logout"

abbrev pub kick_off_meeting_msg : String
kick_off_meeting_msg = "KickOffMeetingMsg"

-- Error codes.
abbrev pub has_registered : ℕ
has_registered = 100001

abbrev pub password_err : ℕ
password_err = 100002

abbrev pub not_found_account_err : ℕ
not_found_account_err = 100003

abbrev pub not_found_user_token_err : ℕ
not_found_user_token_err = 100004

abbrev pub kick_off_meeting_error : ℕ
kick_off_meeting_error = 100010

abbrev pub meeting_user_limit_error : ℕ
meeting_user_limit_error = 200001

abbrev pub meeting_password_error : ℕ
meeting_password_error = 200002

abbrev pub meeting_auth_check_error : ℕ
meeting_auth_check_error = 200003

abbrev pub meeting_complete_error : ℕ
meeting_complete_error = 200004

abbrev pub database_error : ℕ
database_error = 900002

abbrev pub user_id_not_found_error : ℕ
user_id_not_found_error = 1101

-- ===== src/Model.antt =====
-- The records of the two collections: pkg/common/storage/model.
use openmeeting_server.Base.{String, List}
use openmeeting_server.Base.Int.{ℤ}

pub record MeetingInfo : Type 0 where
  pub meeting_id : String
  pub title : String
  pub scheduled_time : ℤ
  pub meeting_duration : ℤ
  pub password : String
  pub creator_user_id : String
  pub status : String
  pub start_time : ℤ
  pub time_zone : String
  pub end_date : ℤ
  pub repeat_times : ℤ
  pub repeat_type : String
  pub uint_type : String
  pub interval : ℤ
  pub repeat_day_of_week : List ℤ
  pub setting : String

pub record User : Type 0 where
  pub user_id : String
  pub account : String
  pub nickname : String
  pub password : String
  pub salt_value : String

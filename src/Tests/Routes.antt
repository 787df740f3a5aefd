-- ===== src/Tests/Routes.antt =====
-- The theorems on the routes of the HTTP API at a concrete environment.
use openmeeting_server.Base.{◌==◌, ◌≢◌, false, eq_iff, String, ◌≡◌, refl, none}
use openmeeting_server.Base.Int.{pos}
use openmeeting_server.Result.{ok, err, args}
use openmeeting_server.Env.{Process, start}
use openmeeting_server.Storage.{take_with_error}
use openmeeting_server.LiveKit.{get_room_data}
use openmeeting_server.Token.{Token, new}
use openmeeting_server.UserService.{user_login}
use openmeeting_server.Meeting.Requests.{Context, EndMeetingReq, end_type}
use openmeeting_server.Meeting.Ending.{host_or_creator}
use openmeeting_server.Sessions.Parsing.{Accepted}
use openmeeting_server.Middleware.{check_token}
use openmeeting_server.Router.{Gin, Request, serve_request}
use openmeeting_server.Router.Handlers.{Decoder, no_content}
use openmeeting_server.Router.Guarded.{IsDenied, serve_request-IsDenied}
use openmeeting_server.Router.Served.{serve_request-Accepted, serve_request-end_meeting-IsDenied}
use openmeeting_server.Tests.Sample.{sample, db_info}
use openmeeting_server.Tests.Redis.{sample-Faithful}

abbrev week : Token
week = new (pos 7) "key"

abbrev ctx : Context
ctx = record { incoming = none; op_user_id_key = "opUserID"; op_user_id = "u1" }

abbrev open_gate : Gin
open_gate = record { gin_parse_token = λ secret list path token. ok tt; context_of = λ user. ctx }

abbrev end_req : EndMeetingReq
end_req = record { meeting_id = "m1"; user_id = "host"; end_type = end_type }

-- Only the messages of the tests are read.
abbrev codec : Decoder
codec = record {
  register_req = λ s. err args;
  login_req = λ s. err args;
  user_ids_req = λ s. err args;
  user_id_req = λ s. err args;
  book_req = λ s. err args;
  create_req = λ s. err args;
  join_req = λ s. err args;
  in_meeting_req = λ s. err args;
  update_req = λ s. err args;
  meeting_id_req = λ s. err args;
  meetings_req = λ s. err args;
  end_req = λ s. ok end_req;
  set_personal_req = λ s. err args;
  operate_req = λ s. err args;
  modify_req = λ s. err args;
  remove_req = λ s. err args;
  host_req = λ s. err args;
}

abbrev no_token : Request
no_token = record { path = "/meeting/end_meeting"; token = ""; body = "END" }

abbrev password_request : Request
password_request = record { path = "/user/update_user_password"; token = "TOKEN"; body = "" }

abbrev logged_in : Process
unfolding user_login
logged_in = (user_login sample week ctx (record { account = "u1"; password = "pw" }) start).1

serve_request-IsDenied_example : IsDenied sample open_gate codec week no_token start
unfolding check_token
serve_request-IsDenied_example =
    serve_request-IsDenied sample open_gate codec week no_token start args (λ e. absurd (cc e))
      (λ e. absurd (cc e)) refl

serve_request-Accepted_example :
    (user_id : String) × ((check_token sample week "TOKEN" logged_in).0 ≡ ok user_id)
    × Accepted sample "TOKEN" logged_in user_id (check_token sample week "TOKEN" logged_in).1
unfolding serve_request user_login new
serve_request-Accepted_example =
    serve_request-Accepted sample open_gate codec week password_request logged_in no_content
      sample-Faithful (λ e. absurd (cc e)) (λ e. absurd (cc e)) refl

-- A message in the name of a guest
abbrev guest_req : EndMeetingReq
guest_req = record { meeting_id = "m1"; user_id = "guest"; end_type = end_type }

abbrev guest_codec : Decoder
guest_codec = record codec { end_req = λ s. ok guest_req }

distinct : (a b : String) → (a == b) ≡ false → a ≢ b
distinct a b e same = absurd (cc (e, (eq_iff a b).1 same))

serve_request-end_meeting-IsDenied_example :
    IsDenied sample open_gate guest_codec week
      (record { path = "/meeting/end_meeting"; token = "TOKEN"; body = "END" })
      logged_in
unfolding check_token user_login new take_with_error get_room_data host_or_creator
serve_request-end_meeting-IsDenied_example =
    serve_request-end_meeting-IsDenied sample open_gate guest_codec week "TOKEN" "END" logged_in
      guest_req db_info refl refl (distinct "creator" "guest" refl) (distinct "host" "guest" refl)

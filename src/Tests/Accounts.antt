-- ===== src/Tests/Accounts.antt =====
-- The theorems on users, their tokens and their accounts at a concrete environment.
use openmeeting_server.Base.{ap, sym, String, [], ◌∷◌, ◌≡◌, ◌≢◌, refl, ◌==◌, false, arith, none}
use openmeeting_server.Base.Int.{pos}
use openmeeting_server.Result.{ok, err, coded}
use openmeeting_server.Constants.{password_err, kick_off_meeting_msg}
use openmeeting_server.Base.{◌||◌}
use openmeeting_server.ErrorRelation.{add, add_each, is, empty}
use openmeeting_server.ErrorRelation.Order.{precedes, is-add}
use openmeeting_server.UserStorage.{find_with_error}
use openmeeting_server.UserStorage.Order.{Matches, find_with_error-Matches}
use openmeeting_server.Admin.Sessions.{Succeeds, AdminLoggedIn, admin_login-Ensures}
use openmeeting_server.Tests.Sample.{user}
use openmeeting_server.Calendar.{from_unix}
use openmeeting_server.Model.{User}
use openmeeting_server.Ensures.{Ensures}
use openmeeting_server.Sessions.Handlers.{LoggedIn, user_login-Ensures}
use openmeeting_server.Middleware.{check_token}
use openmeeting_server.Middleware.Access.{user_logout-check_token}
use openmeeting_server.Token.RoundTrip.{validity, create_token-get_user_of_token}
use openmeeting_server.Admin.{Person, db_user, db_users, admin_login, gin_error}
use openmeeting_server.Admin.Accounts.{
  user_login-db_user, admin_login-refused, db_users-Ensures, StoresAll,
}
use openmeeting_server.UserService.{open_session}
use openmeeting_server.Xlsx.{num2_az}
use openmeeting_server.Xlsx.Columns.{column_number, num2_az-column_number}
use openmeeting_server.Tests.Sample.{stored_user}
use openmeeting_server.Env.{Env, Process, start}
use openmeeting_server.Token.{Token, new, create_token, get_user_of_token}
use openmeeting_server.SecureTools.{verify_password, hash_password}
use openmeeting_server.UserStorage.{get_by_account}
use openmeeting_server.UserService.{
  UserLoginReq, UserLoginResp, user_login, user_logout, mark_kicked_off, parse_token,
}
use openmeeting_server.Meeting.Requests.{Context}
use openmeeting_server.Sessions.{session}
use openmeeting_server.Sessions.Steps.{here, next, parse, Reach-session}
use openmeeting_server.Sessions.Access.{
  user_login-parse_token, user_logout-parse_token, mark_kicked_off-parse_token, user_login-refused,
}
use openmeeting_server.Tests.Sample.{sample}
use openmeeting_server.Tests.Redis.{sample-Faithful, sample-Verifies}

abbrev week : Token
week = new (pos 7) "key"

abbrev ctx : Context
ctx = record { incoming = none; op_user_id_key = "opUserID"; op_user_id = "u1" }

abbrev login_req : UserLoginReq
login_req = record { account = "u1"; password = "pw" }

abbrev login_resp : UserLoginResp
login_resp = record { user_id = "u1"; nickname = "N"; token = "TOKEN" }

abbrev logged_in : Process
logged_in = (user_login sample week ctx login_req start).1

abbrev parsed_once : Process
parsed_once = (parse_token sample week "OTHER" logged_in).1

user_login-parse_token_example : "TOKEN" ≡ login_resp.token
unfolding user_login parse_token new
user_login-parse_token_example =
    user_login-parse_token sample week sample-Faithful ctx login_req start login_resp parsed_once
      "TOKEN" refl (next here (parse "OTHER" logged_in)) refl

abbrev logged_out : Process
logged_out = (user_logout sample ctx "u1" logged_in).1

user_logout-parse_token_example : (parse_token sample week "TOKEN" logged_out).0 ≢ ok "u1"
unfolding user_logout
user_logout-parse_token_example =
    user_logout-parse_token sample week sample-Faithful ctx "u1" logged_in logged_out "TOKEN" refl
      here

abbrev kicked : Process
kicked = (mark_kicked_off sample "u1" logged_in).1

mark_kicked_off-parse_token_example :
    (parse_token sample week kick_off_meeting_msg kicked).0 ≢ ok "u1"
unfolding mark_kicked_off
mark_kicked_off-parse_token_example =
    mark_kicked_off-parse_token sample week sample-Faithful "u1" logged_in kicked
      kick_off_meeting_msg refl here

Reach-session_example : session sample "u1" parsed_once ≡ session sample "u1" logged_in
Reach-session_example = Reach-session sample week "u1" (next here (parse "OTHER" logged_in))

user_login-Ensures_example :
    LoggedIn sample week login_req start login_resp (user_login sample week ctx login_req start).1
unfolding user_login new
user_login-Ensures_example = (user_login-Ensures sample week ctx login_req).at start login_resp refl

abbrev wrong_req : UserLoginReq
wrong_req = record { account = "u1"; password = "guess" }

wrong_for :
    (user : User)
    → (get_by_account sample "u1" start).0 ≡ ok user
    → (verify_password sample "guess" user.salt_value == user.password) ≡ false
unfolding get_by_account verify_password
wrong_for user found =
    let same : stored_user "u1" ≡ user = cc found in
    ap (λ user. verify_password sample "guess" user.salt_value == user.password) (sym same)

user_login-refused_example :
    user_login sample week ctx wrong_req start
    ≡ (err (coded password_err), (get_by_account sample "u1" start).1)
unfolding get_by_account
user_login-refused_example =
    user_login-refused sample week ctx wrong_req start (λ user found. wrong_for user found)

abbrev no_token : String
no_token = ""

user_logout-check_token_example : (check_token sample week "TOKEN" logged_out).0 ≢ ok "u1"
unfolding user_logout
user_logout-check_token_example =
    user_logout-check_token sample week ctx "u1" logged_in logged_out "TOKEN" sample-Faithful refl
      here

create_token-get_user_of_token_example :
    (get_user_of_token sample (new (pos 7) "key") "TOKEN" start).0
    ≡ validity 1700000000 7 1700000000 "u1"
unfolding create_token new from_unix
create_token-get_user_of_token_example =
    create_token-get_user_of_token sample sample-Verifies 7 "key" "u1" "TOKEN" start start
      1700000000 0 1700000000 0 (omega arith) (omega arith) (omega arith) (omega arith)
      (omega arith) refl refl refl

abbrev person : Person
person = record {
  account = "acc";
  nickname = "N";
  password = "pw";
  birth = "";
  gender = "";
  email = "";
}

abbrev hashed : String × String
hashed = ("pwabcdefghijklmnop", "abcdefghijklmnop")

-- The sample, where the account is that of the person
abbrev registered : Env
registered = record sample {
  find_user_by_account_answer = λ h account. ok (db_user sample person "u9" hashed);
}

user_login-db_user_example :
    user_login registered week ctx (record { account = "acc"; password = "pw" }) start
    ≡ open_session registered week ctx
        (db_user registered person "u9" hashed)
        (get_by_account registered "acc" start).1
unfolding get_by_account hash_password
user_login-db_user_example =
    user_login-db_user registered week start ctx person "u9" hashed start refl refl

guess_wrong :
    (stored : User)
    → (get_by_account sample "u1" start).0 ≡ ok stored
    → (verify_password sample "guess" stored.salt_value == stored.password) ≡ false
unfolding get_by_account verify_password
guess_wrong stored e = let same : stored_user "u1" ≡ stored = cc e in rw (sym same) refl

admin_login-refused_example :
    admin_login sample week "u1" "guess" start
    ≡ (ok (gin_error none), (get_by_account sample "u1" start).1)
unfolding get_by_account verify_password
admin_login-refused_example = admin_login-refused sample week start "u1" "guess" guess_wrong

db_users-Ensures_example :
    Ensures
      (λ p users q. StoresAll sample (person ∷ person ∷ []) users)
      (db_users sample (person ∷ person ∷ []))
db_users-Ensures_example = db_users-Ensures sample (person ∷ person ∷ [])

num2_az-column_number_example :
    (name : String) × (num2_az (pos 703) ≡ ok name) × (column_number 0 name ≡ 703)
num2_az-column_number_example = num2_az-column_number 703 (omega arith)

is-add_example :
    is (add_each (1 ∷ 2 ∷ 3 ∷ []) empty) 1 3 ≡ (is empty 1 3 || precedes 1 3 (1 ∷ 2 ∷ 3 ∷ []))
unfolding add
is-add_example = is-add (1 ∷ 2 ∷ 3 ∷ []) empty (add_each (1 ∷ 2 ∷ 3 ∷ []) empty) 1 3 refl

find_with_error-Matches_example :
    Ensures
      (λ p users q. Matches sample ("u1" ∷ "u2" ∷ []) users)
      (find_with_error sample ("u1" ∷ "u2" ∷ []))
find_with_error-Matches_example = find_with_error-Matches sample ("u1" ∷ "u2" ∷ [])

admin_login-Ensures_example :
    Ensures (Succeeds (AdminLoggedIn sample "u1" "pw")) (admin_login sample week "u1" "pw")
admin_login-Ensures_example = admin_login-Ensures sample week "u1" "pw"

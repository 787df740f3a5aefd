-- ===== src/UserService.antt =====
-- The user service: internal/rpc/user/user.go and pkg/common/convert/user.go. Counters are left out.
pub mod Ids
pub mod Registration
use Prim.Native.Char.{code}
use openmeeting_server.Base.{
  String, List, [], ◌∷◌, Bool, true, false, not, map, ◌==◌, if◌then◌else◌, ℕ, ◌&&◌, eqb,
}
use openmeeting_server.Base.Int.{ℤ}
use openmeeting_server.Constants.{
  has_registered, password_err, not_found_account_err, not_found_user_token_err,
  kick_off_meeting_error, database_error, kick_off_duplicated_login, kick_off_logout,
  kick_off_meeting_msg,
}
use openmeeting_server.Model.{User}
use openmeeting_server.Wire.{UserInfo}
use openmeeting_server.Result.{Result, ok, err, args, coded, is_record_not_found, element_at}
use openmeeting_server.Env.{◌>>=◌, ◌>>◌, Env, Exec, pure, raise, lift, attempt, unless}
use openmeeting_server.Rpc.{remote}
use openmeeting_server.SecureTools.{verify_password}
use openmeeting_server.Token.{Token, create_token, get_user_of_token}
use openmeeting_server.UserStorage.{
  find_with_error, create_users, get_by_account, store_token, get_token, clear_user_token,
}
use openmeeting_server.Meeting.Requests.{Context}
use openmeeting_server.Meeting.Streams.{clean_previous_meetings}

pub record UserLoginReq : Type 0 where
  pub account : String
  pub password : String

pub record UserLoginResp : Type 0 where
  pub user_id : String
  pub nickname : String
  pub token : String

-- The account of a user is not passed on.
unfoldable pub users_db2_pb : List User → List UserInfo
users_db2_pb [] = []
users_db2_pb (user ∷ users) =
    record { user_id = user.user_id; nickname = user.nickname; account = "" } ∷ users_db2_pb users

-- `strings.Contains` of a text of one character
unfoldable pub has_char : ℕ → String → Bool
has_char c String.[] = false
has_char c (String.◌∷◌ d s) = let rest = has_char c s in if eqb (code d) c then true else rest

-- What `UserRegister` asks of one id.
unfoldable pub is_valid_id : String → Bool
unfolding has_char
is_valid_id user_id = not (user_id == "") && not (has_char b':' user_id)

unfoldable pub check_user_ids : List UserInfo → Result (Unit {0})
unfolding is_valid_id
check_user_ids [] = ok tt
check_user_ids (user ∷ users) =
    let rest = check_user_ids users in if is_valid_id user.user_id then rest else err args

-- The stored users have neither an account nor a password.
unfoldable pub new_users : List UserInfo → List User
new_users [] = []
new_users (user ∷ users) =
    record {
      user_id = user.user_id;
      account = "";
      nickname = user.nickname;
      password = "";
      salt_value = "";
    }
    ∷ new_users users

-- An error of the storage in the terms of `GetUserInfo`.
unfoldable pub as_user_error : Result (List User) → Result (List User)
as_user_error (ok users) = ok users
as_user_error (err e) =
    err (coded (if is_record_not_found e then not_found_account_err else database_error))

-- Any error in place of the one of the storage.
abbrev pub as_coded : {A : Type 0} → ℕ → Result A → Result A
as_coded code (ok a) = ok a
as_coded code (err e) = err (coded code)

module _ (env : Env) where
  unfoldable pub get_designate_users : List String → Exec (List UserInfo)
  unfolding find_with_error users_db2_pb
  get_designate_users user_ids = do users ← find_with_error env user_ids; pure (users_db2_pb users)

  unfoldable pub user_register : List UserInfo → Exec (Unit {0})
  unfolding check_user_ids new_users create_users
  user_register [] = raise args
  user_register (user ∷ users) =
      unless (not (env.duplicate_any (map (λ e. e.user_id) (user ∷ users)))) (coded has_registered)
        (do lift (check_user_ids (user ∷ users)); create_users env (new_users (user ∷ users)))

  -- The call of the meeting service when a user logs in or out.
  unfoldable pub clean_meetings : Context → String → String → ℤ → Exec (Unit {0})
  unfolding remote clean_previous_meetings
  clean_meetings ctx user_id reason reason_code = remote env "CleanPreviousMeetings" (
      clean_previous_meetings env ctx
        (record { user_id = user_id; reason = reason; reason_code = reason_code }))

  -- After the password was found right.
  unfoldable pub open_session : Token → Context → User → Exec UserLoginResp
  unfolding create_token store_token clean_meetings
  open_session t ctx user = do
    user_token ← create_token env t user.user_id
    store_token env user.user_id user_token
    clean_meetings ctx user.user_id kick_off_duplicated_login env.duplicated_login
    pure (record { user_id = user.user_id; nickname = user.nickname; token = user_token })

  unfoldable pub user_login : Token → Context → UserLoginReq → Exec UserLoginResp
  unfolding get_by_account verify_password open_session
  user_login t ctx req = do
    found ← attempt (get_by_account env req.account)
    user ← lift (as_coded password_err found)
    unless (verify_password env req.password user.salt_value == user.password) (coded password_err)
        (open_session t ctx user)

  unfoldable pub get_user_token : String → Exec String
  unfolding get_token
  get_user_token user_id = do
    found ← attempt (get_token env user_id)
    lift (as_coded not_found_user_token_err found)

  unfoldable pub get_user_info : String → Exec UserInfo
  unfolding find_with_error as_user_error element_at
  get_user_info user_id = do
    found ← attempt (find_with_error env (user_id ∷ []))
    users ← lift (as_user_error found)
    user ← lift (element_at users 0)
    pure (record { user_id = user.user_id; nickname = user.nickname; account = user.account })

  -- `ClearUserToken` of the service: the token is replaced by a mark.
  unfoldable pub mark_kicked_off : String → Exec (Unit {0})
  unfolding store_token
  mark_kicked_off user_id = store_token env user_id kick_off_meeting_msg

  unfoldable pub user_logout : Context → String → Exec (Unit {0})
  unfolding clear_user_token clean_meetings
  user_logout ctx user_id = do
    clear_user_token env user_id
    clean_meetings ctx user_id kick_off_logout env.logout

  unfoldable pub parse_token : Token → String → Exec String
  unfolding get_user_of_token get_token
  parse_token t token = do
    user_id ← get_user_of_token env t token
    user_token ← get_token env user_id
    unless (not (user_token == kick_off_meeting_msg)) (coded kick_off_meeting_error)
        (unless (token == user_token) (coded kick_off_meeting_error) (pure user_id))

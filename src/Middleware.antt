-- ===== src/Middleware.antt =====
-- internal/api/mw/mw.go: the check of the token of a request before its handler.
pub mod Stored
pub mod Reading
pub mod Access
pub mod Login
use openmeeting_server.Base.{String, ◌&&◌, ◌||◌, not, ◌==◌}
use openmeeting_server.Constants.{kick_off_meeting_msg, kick_off_meeting_error}
use openmeeting_server.Result.{args, coded, token_expired}
use openmeeting_server.Env
use openmeeting_server.Env.{Env, Exec, pure, unless, ◌>>=◌, ◌>>◌}
use openmeeting_server.Rpc.{remote}
use openmeeting_server.Token.{Token, get_user_of_token}
use openmeeting_server.UserService.{get_user_token}

-- `isValidToken`, after the token that is stored was answered
unfoldable pub check_stored : String → String → Exec (Unit {0})
check_stored stored user_token =
    unless (not (stored == kick_off_meeting_msg)) (coded kick_off_meeting_error) (
      unless (not (not (stored == "") && not (stored == user_token))) (coded kick_off_meeting_error)
        (unless (not (stored == "" || not (stored == user_token))) token_expired (pure tt)))

module _ (env : Env) where
  unfoldable pub is_valid_token : String → String → Exec (Unit {0})
  unfolding check_stored remote get_user_token
  is_valid_token user_id user_token = do
    stored ← remote env "GetUserToken" (get_user_token env user_id)
    check_stored stored user_token

  -- The user of the token in the header of the request
  unfoldable pub parse_header : Token → String → Exec String
  unfolding get_user_of_token
  parse_header t user_token =
      unless (not (user_token == "")) args (get_user_of_token env t user_token)

  -- `CheckToken`: the user that the handler is then run for
  unfoldable pub check_token : Token → String → Exec String
  unfolding parse_header is_valid_token
  check_token t user_token = do
    user_id ← parse_header t user_token
    is_valid_token user_id user_token
    pure user_id

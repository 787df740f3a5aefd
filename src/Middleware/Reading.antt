-- ===== src/Middleware/Reading.antt =====
-- The middleware changes nothing.
use openmeeting_server.Calendar.{unix}
use openmeeting_server.Token.{user_of}
use openmeeting_server.Storage.Key.{get_user_token_key}
use openmeeting_server.UserService.{as_coded}
use openmeeting_server.Constants.{
  not_found_user_token_err, kick_off_meeting_msg, kick_off_meeting_error,
}
use openmeeting_server.Result.{coded, args, token_expired}
use openmeeting_server.Base.{not, ◌&&◌, ◌||◌}
use openmeeting_server.Base.{String, ◌==◌, refl}
use openmeeting_server.Result.{ok}
use openmeeting_server.Env
use openmeeting_server.Env.{Env, Exec}
use openmeeting_server.Rpc.{remote}
use openmeeting_server.ReadOnly.{
  ReadsOnly, ReadsOnly-pure, ReadsOnly-lift, ReadsOnly-ask, ReadsOnly-attempt, ReadsOnly-bind,
  ReadsOnly-unless,
}
use openmeeting_server.Token.{Token, get_user_of_token, user_of}
use openmeeting_server.UserStorage.{get_token}
use openmeeting_server.UserService.{get_user_token}
use openmeeting_server.Middleware.{check_token, check_stored, is_valid_token, parse_header}

module _ (env : Env) where
  remote-ReadsOnly :
      {A : Type 0} (name : String) {m : Exec A} → ReadsOnly m → ReadsOnly (remote env name m)
  unfolding remote
  remote-ReadsOnly name h =
      ReadsOnly-bind
        (ReadsOnly-ask (Env.rpc_request name) (λ h. env.rpc_request_answer h name) refl)
        (λ u. ReadsOnly-bind h (λ answer.
          ReadsOnly-bind
            (ReadsOnly-ask (Env.rpc_response name) (λ h. env.rpc_response_answer h name) refl)
            (λ v. ReadsOnly-pure answer)))

  check_stored-ReadsOnly : (stored token : String) → ReadsOnly (check_stored stored token)
  unfolding check_stored
  check_stored-ReadsOnly stored token =
      ReadsOnly-unless (not (stored == kick_off_meeting_msg)) (coded kick_off_meeting_error) (
        ReadsOnly-unless (not (not (stored == "") && not (stored == token)))
          (coded kick_off_meeting_error)
          (ReadsOnly-unless (not (stored == "" || not (stored == token))) token_expired
            (ReadsOnly-pure tt)))

  get_user_of_token-ReadsOnly :
      (t : Token) (token : String) → ReadsOnly (get_user_of_token env t token)
  unfolding get_user_of_token
  get_user_of_token-ReadsOnly t token =
      ReadsOnly-bind (ReadsOnly-ask Env.current_time (λ h. ok (env.time_answer h)) refl)
        (λ now. ReadsOnly-lift (user_of (env.parse_claims (unix now) token t.secret)))

  get_user_token-ReadsOnly : (user_id : String) → ReadsOnly (get_user_token env user_id)
  unfolding get_user_token get_token
  get_user_token-ReadsOnly user_id =
      let key = get_user_token_key user_id in
      ReadsOnly-bind
        (ReadsOnly-attempt (ReadsOnly-ask (Env.read_key key) (λ h. env.read_key_answer h key) refl))
        (λ found. ReadsOnly-lift (as_coded not_found_user_token_err found))

  -- The middleware changes nothing.
  pub check_token-ReadsOnly : (t : Token) (token : String) → ReadsOnly (check_token env t token)
  unfolding check_token parse_header is_valid_token
  check_token-ReadsOnly t token =
      ReadsOnly-bind
        (ReadsOnly-unless (not (token == "")) args (get_user_of_token-ReadsOnly t token))
        (λ user_id.
          ReadsOnly-bind
            (ReadsOnly-bind (remote-ReadsOnly "GetUserToken" (get_user_token-ReadsOnly user_id))
              (λ stored. check_stored-ReadsOnly stored token))
            (λ u. ReadsOnly-pure user_id))

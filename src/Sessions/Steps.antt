-- ===== src/Sessions/Steps.antt =====
-- The procedures of the user service that leave the session of one user alone, and their sequences.
use openmeeting_server.Base.{String, List, [], ◌∷◌, ◌≡◌, ◌≢◌, refl, ◌∙◌, ◌==◌, eqb, arith}
use openmeeting_server.Base.Lists.{length}
use openmeeting_server.Model.{User}
use openmeeting_server.Result.{Result, ok, err, coded, record_not_found, element_at}
use openmeeting_server.Constants.{
  password_err, kick_off_meeting_msg, not_found_user_token_err, kick_off_duplicated_login,
  kick_off_logout, kick_off_meeting_error,
}
use openmeeting_server.Env.{Env, Process, Exec, lift, unless, ◌>>=◌}
use openmeeting_server.Token.{Token}
use openmeeting_server.SecureTools.{verify_password}
use openmeeting_server.UserStorage.{
  batch_get_cache2, on_val, take_user_mgo, get_users_info, find_with_error, get_token, store_token,
  clear_user_token, get_by_account,
}
use openmeeting_server.Storage.Cache.{get_cache}
use openmeeting_server.Storage.Key.{get_user_token_key, get_user_info_key}
use openmeeting_server.UserService.{
  UserLoginReq, user_login, user_logout, mark_kicked_off, parse_token, get_user_info,
  get_designate_users, get_user_token, open_session, as_coded, as_user_error, users_db2_pb,
}
use openmeeting_server.Meeting.Requests.{Context}
use openmeeting_server.Sessions.{state_of, session, after_call}
use openmeeting_server.Sessions.Effects.{
  key-other, create_token-Keeps, clean_meetings-Keeps, get_by_account-Keeps,
}
use openmeeting_server.UserService.{user_register}
use openmeeting_server.Wire.{UserInfo}
use openmeeting_server.Storage.Invalidation.{RunsOnce}
use openmeeting_server.Sessions.Registering.{user_register-Keeps}
use openmeeting_server.Sessions.Parsing.{get_user_of_token-Keeps}
use openmeeting_server.Sessions.Keeps.{
  Keeps, Keeps-pure, Keeps-lift, Keeps-raise, Keeps-attempt, Keeps-if, Keeps-bind, Keeps-unless,
}

module _ (env : Env) (x : String) where
  store_token-Keeps :
      (user_id token : String)
      → x ≢ user_id
      → Keeps env (get_user_token_key x) (store_token env user_id token)
  unfolding store_token state_of after_call
  store_token-Keeps user_id token ne = record { at = λ p. rw (key-other user_id x ne) refl }

  clear_user_token-Keeps :
      (user_id : String)
      → x ≢ user_id
      → Keeps env (get_user_token_key x) (clear_user_token env user_id)
  unfolding clear_user_token state_of after_call
  clear_user_token-Keeps user_id ne = record { at = λ p. rw (key-other user_id x ne) refl }

  open_session-Keeps :
      (t : Token) (ctx : Context) (user : User)
      → x ≢ user.user_id
      → Keeps env (get_user_token_key x) (open_session env t ctx user)
  unfolding open_session
  open_session-Keeps t ctx user ne = Keeps-bind (create_token-Keeps env _ t user.user_id) λ token.
      Keeps-bind (store_token-Keeps user.user_id token ne) λ u.
        Keeps-bind
          (clean_meetings-Keeps env _ ctx user.user_id kick_off_duplicated_login
            env.duplicated_login)
          λ v. Keeps-pure _

  login_found-Keeps :
      (t : Token) (ctx : Context) (req : UserLoginReq) (found : Result User)
      → ((user : User) → found ≡ ok user → x ≢ user.user_id)
      → Keeps env (get_user_token_key x) (do
        user ← lift (as_coded password_err found)
        unless
            (verify_password env req.password user.salt_value == user.password)
            (coded password_err)
            (open_session env t ctx user))
  login_found-Keeps t ctx req (ok user) other = record {
    at = λ p.
        (Keeps-unless _ (coded password_err) (open_session-Keeps t ctx user (other user refl))).at
          p;
  }
  login_found-Keeps t ctx req (err e) other = record { at = λ p. refl }

  user_login-other :
      (t : Token) (ctx : Context) (req : UserLoginReq) (p : Process)
      → ((user : User) → (get_by_account env req.account p).0 ≡ ok user → x ≢ user.user_id)
      → session env x (user_login env t ctx req p).1 ≡ session env x p
  unfolding user_login
  user_login-other t ctx req p other =
      (login_found-Keeps t ctx req (get_by_account env req.account p).0 other).at
        (get_by_account env req.account p).1
      ∙ (get_by_account-Keeps env _ req.account).at p

module _ (env : Env) (key : String) where
  cached_user-Keeps :
      (user_id : String)
      → Keeps env key (
          get_cache env env.marshal_user env.unmarshal_user
            (get_user_info_key user_id)
            (take_user_mgo env user_id))
  unfolding get_cache take_user_mgo state_of
  cached_user-Keeps user_id = record { at = λ p. ground arith }

  on_val-Keeps :
      (val : Result User) {rest : Exec (List User)}
      → Keeps env key rest
      → Keeps env key (on_val env val rest)
  unfolding on_val
  on_val-Keeps (ok v) hr = Keeps-bind hr λ vs. Keeps-pure (v ∷ vs)
  on_val-Keeps (err e) hr = Keeps-if (env.has_not_found_code e) hr (Keeps-raise e)

  batch_get_cache2-Keeps :
      (user_ids : List String)
      → Keeps env key (
          batch_get_cache2 env env.marshal_user env.unmarshal_user get_user_info_key
            (take_user_mgo env)
            user_ids)
  unfolding batch_get_cache2
  batch_get_cache2-Keeps [] = Keeps-pure _
  batch_get_cache2-Keeps (user_id ∷ user_ids) =
      Keeps-bind (Keeps-attempt (cached_user-Keeps user_id))
        λ val. on_val-Keeps val (batch_get_cache2-Keeps user_ids)

  find_with_error-Keeps : (user_ids : List String) → Keeps env key (find_with_error env user_ids)
  unfolding find_with_error get_users_info
  find_with_error-Keeps user_ids = Keeps-bind (batch_get_cache2-Keeps user_ids) λ users.
      Keeps-if (eqb (length users) (length user_ids)) (Keeps-pure users)
        (Keeps-raise record_not_found)

  get_token-Keeps : (user_id : String) → Keeps env key (get_token env user_id)
  unfolding get_token state_of
  get_token-Keeps user_id = record { at = λ p. refl }

  get_designate_users-Keeps :
      (user_ids : List String) → Keeps env key (get_designate_users env user_ids)
  unfolding get_designate_users
  get_designate_users-Keeps user_ids =
      Keeps-bind (find_with_error-Keeps user_ids) λ users. Keeps-pure (users_db2_pb users)

  get_user_info-Keeps : (user_id : String) → Keeps env key (get_user_info env user_id)
  unfolding get_user_info
  get_user_info-Keeps user_id =
      Keeps-bind (Keeps-attempt (find_with_error-Keeps (user_id ∷ []))) λ found.
        Keeps-bind (Keeps-lift (as_user_error found)) λ users.
          Keeps-bind (Keeps-lift (element_at users 0)) λ user.
            Keeps-pure
              (record { user_id = user.user_id; nickname = user.nickname; account = user.account })

  get_user_token-Keeps : (user_id : String) → Keeps env key (get_user_token env user_id)
  unfolding get_user_token
  get_user_token-Keeps user_id =
      Keeps-bind (Keeps-attempt (get_token-Keeps user_id))
        λ found. Keeps-lift (as_coded not_found_user_token_err found)

  parse_token-Keeps : (t : Token) (token : String) → Keeps env key (parse_token env t token)
  unfolding parse_token
  parse_token-Keeps t token = Keeps-bind (get_user_of_token-Keeps env key t token) λ user_id.
      Keeps-bind (get_token-Keeps user_id) λ user_token.
        Keeps-unless _ (coded kick_off_meeting_error)
          (Keeps-unless _ (coded kick_off_meeting_error) (Keeps-pure user_id))

module _ (env : Env) (t : Token) (x : String) where
  logout-Keeps :
      (ctx : Context) (y : String)
      → x ≢ y
      → Keeps env (get_user_token_key x) (user_logout env ctx y)
  unfolding user_logout
  logout-Keeps ctx y ne =
      Keeps-bind (clear_user_token-Keeps env x y ne)
        λ u. clean_meetings-Keeps env _ ctx y kick_off_logout env.logout

  kick_off-Keeps : (y : String) → x ≢ y → Keeps env (get_user_token_key x) (mark_kicked_off env y)
  unfolding mark_kicked_off
  kick_off-Keeps y ne = store_token-Keeps env x y kick_off_meeting_msg ne

  -- One procedure of the service, with any outcome, that is no login, logout or kick-off of `x`
  pub data Step : Process → Process → Type 0 where
    parse : (token : String) (p : Process) → Step p (parse_token env t token p).1
    designate : (ids : List String) (p : Process) → Step p (get_designate_users env ids p).1
    info : (user_id : String) (p : Process) → Step p (get_user_info env user_id p).1
    token_of : (user_id : String) (p : Process) → Step p (get_user_token env user_id p).1
    register :
        (users : List UserInfo) (p : Process) → RunsOnce env → Step p (user_register env users p).1
    log_out :
        (ctx : Context) (y : String) (p : Process) → x ≢ y → Step p (user_logout env ctx y p).1
    kick_off : (y : String) (p : Process) → x ≢ y → Step p (mark_kicked_off env y p).1
    log_in :
        (ctx : Context) (req : UserLoginReq) (p : Process)
        → ((user : User) → (get_by_account env req.account p).0 ≡ ok user → x ≢ user.user_id)
        → Step p (user_login env t ctx req p).1

  pub data Reach (p : Process) : Process → Type 0 where
    here : Reach p p
    next : {q r : Process} → Reach p q → Step q r → Reach p r

  Step-session : {p q : Process} → Step p q → session env x q ≡ session env x p
  Step-session (parse token p) = (parse_token-Keeps env _ t token).at p
  Step-session (designate ids p) = (get_designate_users-Keeps env _ ids).at p
  Step-session (info user_id p) = (get_user_info-Keeps env _ user_id).at p
  Step-session (token_of user_id p) = (get_user_token-Keeps env _ user_id).at p
  Step-session (register users p once) = (user_register-Keeps env _ users once).at p
  Step-session (log_out ctx y p ne) = (logout-Keeps ctx y ne).at p
  Step-session (kick_off y p ne) = (kick_off-Keeps y ne).at p
  Step-session (log_in ctx req p other) = user_login-other env x t ctx req p other

  -- The session of a user stays what it was along any sequence of token checks, reads of users and
  -- tokens, registrations in a transaction that runs its function once, and logins, logouts and
  -- kick-offs of others, whatever their outcomes.
  pub Reach-session : {p q : Process} → Reach p q → session env x q ≡ session env x p
  Reach-session here = refl
  Reach-session (next r step) = Step-session step ∙ Reach-session r

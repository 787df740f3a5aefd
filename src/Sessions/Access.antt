-- ===== src/Sessions/Access.antt =====
-- Which tokens are accepted after a login, a logout and a kick-off: the procedures of
-- internal/rpc/user/user.go in sequence.
use openmeeting_server.Base.{String, false, ◌≡◌, ◌≢◌, refl, ◌∙◌, ◌==◌, ap}
use openmeeting_server.Model.{User}
use openmeeting_server.Result.{Result, ok, err, coded}
use openmeeting_server.Constants.{password_err, kick_off_meeting_msg}
use openmeeting_server.Env.{Env, Process, lift, unless, ◌>>=◌}
use openmeeting_server.Token.{Token}
use openmeeting_server.SecureTools.{verify_password}
use openmeeting_server.UserStorage.{get_by_account}
use openmeeting_server.UserService.{
  as_coded, open_session, UserLoginReq, UserLoginResp, user_login, user_logout, mark_kicked_off,
  parse_token,
}
use openmeeting_server.Meeting.Requests.{Context}
use openmeeting_server.Sessions.{session, Faithful}
use openmeeting_server.Sessions.Handlers.{
  user_login-Ensures, user_logout-Ensures, mark_kicked_off-Ensures,
}
use openmeeting_server.Sessions.Parsing.{parse_token-Ensures}
use openmeeting_server.Sessions.Steps.{Reach, Reach-session}

module _ (env : Env) (t : Token) (faithful : Faithful env) where
  -- After a login that answered a token, and whatever was asked of the user service since then but
  -- a login, a logout or a kick-off of that user (registrations in a transaction that runs once),
  -- the only token that ParseToken accepts as this user is the one answered, as long as a key of
  -- Redis that is read has the value written last.
  pub user_login-parse_token :
      (ctx : Context) (req : UserLoginReq) (p : Process) (resp : UserLoginResp) (q : Process)
      (token : String)
      → (user_login env t ctx req p).0 ≡ ok resp
      → Reach env t resp.user_id (user_login env t ctx req p).1 q
      → (parse_token env t token q).0 ≡ ok resp.user_id
      → token ≡ resp.token
  user_login-parse_token ctx req p resp q token login since accepted =
      let opened = (user_login-Ensures env t ctx req).at p resp login in
      (((parse_token-Ensures env t token faithful).at q resp.user_id accepted).1 resp.token (
        Reach-session env t resp.user_id since
        ∙ ap (λ u. session env u (user_login env t ctx req p).1) opened.3
        ∙ opened.5.0)).0

  -- After a logout that succeeded, and whatever was asked of the user service since then but a
  -- login, a logout or a kick-off of that user (registrations in a transaction that runs once),
  -- ParseToken accepts no token as this user, as long as a key that was removed from Redis is not
  -- read.
  pub user_logout-parse_token :
      (ctx : Context) (user_id : String) (p q : Process) (token : String)
      → (user_logout env ctx user_id p).0 ≡ ok tt
      → Reach env t user_id (user_logout env ctx user_id p).1 q
      → (parse_token env t token q).0 ≢ ok user_id
  user_logout-parse_token ctx user_id p q token logout since accepted =
      let ended = (user_logout-Ensures env ctx user_id).at p tt logout in
      ((parse_token-Ensures env t token faithful).at q user_id accepted).0
        (Reach-session env t user_id since ∙ ended.0)

  -- After a ClearUserToken that succeeded, and whatever was asked of the user service since then
  -- but a login, a logout or a kick-off of that user (registrations in a transaction that runs
  -- once), ParseToken accepts no token as this user, the stored mark included, as long as a key of
  -- Redis that is read has the value written last.
  pub mark_kicked_off-parse_token :
      (user_id : String) (p q : Process) (token : String)
      → (mark_kicked_off env user_id p).0 ≡ ok tt
      → Reach env t user_id (mark_kicked_off env user_id p).1 q
      → (parse_token env t token q).0 ≢ ok user_id
  mark_kicked_off-parse_token user_id p q token kicked since accepted =
      let ended = (mark_kicked_off-Ensures env user_id).at p tt kicked in
      (((parse_token-Ensures env t token faithful).at q user_id accepted).1 kick_off_meeting_msg
          (Reach-session env t user_id since ∙ ended.0)).1
        refl

module _ (env : Env) (t : Token) (ctx : Context) (req : UserLoginReq) (p : Process) where
  refused :
      (found : Result User) (q : Process)
      → ((user : User)
          → found ≡ ok user
          → (verify_password env req.password user.salt_value == user.password) ≡ false)
      → (do
        user ← lift (as_coded password_err found)
        unless
            (verify_password env req.password user.salt_value == user.password)
            (coded password_err)
            (open_session env t ctx user))
          q
        ≡ (err (coded password_err), q)
  refused (ok user) q wrong = rw (wrong user refl) refl
  refused (err e) q wrong = refl

  -- A login whose account is not found, or whose password does not hash to the stored one, answers
  -- the code of a wrong password, and does nothing but look the account up.
  pub user_login-refused :
      ((user : User)
        → (get_by_account env req.account p).0 ≡ ok user
        → (verify_password env req.password user.salt_value == user.password) ≡ false)
      → user_login env t ctx req p
        ≡ (err (coded password_err), (get_by_account env req.account p).1)
  unfolding user_login
  user_login-refused wrong =
      refused (get_by_account env req.account p).0 (get_by_account env req.account p).1 wrong

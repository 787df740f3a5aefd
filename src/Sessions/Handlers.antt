-- ===== src/Sessions/Handlers.antt =====
-- What the handlers of the user service do to the sessions.
use openmeeting_server.Base.{String, ◌≡◌, sym, ap, ◌∙◌, true, ◌==◌, ℕ}
use openmeeting_server.Result.{Result, ok, err, coded}
use openmeeting_server.Model.{User}
use openmeeting_server.Constants.{
  kick_off_duplicated_login, kick_off_meeting_msg, password_err, kick_off_logout,
}
use openmeeting_server.Env.{Env}
use openmeeting_server.Ensures.{
  Ensures, Effect, Ensures-bind, Ensures-unless, Ensures-pure, Ensures-lift, Ensures-weaken,
  Returned, Ensures-attempt,
}
use openmeeting_server.SecureTools.{verify_password}
use openmeeting_server.Token.{Token, create_token}
use openmeeting_server.UserStorage.{get_by_account}
use openmeeting_server.UserService.{
  UserLoginReq, UserLoginResp, open_session, user_login, user_logout, mark_kicked_off, as_coded,
}
use openmeeting_server.Meeting.Requests.{Context}
use openmeeting_server.Sessions.{active, closed, state_of}
use openmeeting_server.Sessions.Effects.{
  Becomes, Same, Keeps-Ensures, store_token-Ensures, clear_user_token-Ensures, create_token-Keeps,
  clean_meetings-Keeps, get_by_account-Keeps, Becomes-Same, Same-Becomes,
}

module _ (env : Env) where
  -- What a success of `open_session` answers and does.
  abbrev Opened : Token → User → Effect UserLoginResp
  Opened t user p resp q =
      (resp.user_id ≡ user.user_id)
      × ((create_token env t user.user_id p).0 ≡ ok resp.token)
      × Becomes env user.user_id (active resp.token) p q

  pub open_session-Ensures :
      (t : Token) (ctx : Context) (user : User)
      → Ensures (Opened t user) (open_session env t ctx user)
  unfolding open_session
  open_session-Ensures t ctx user =
      Ensures-bind
        {R = λ p token q. ((create_token env t user.user_id p).0 ≡ ok token) × Same env p q}
        {S = λ token p resp q.
          (resp.user_id ≡ user.user_id)
          × (resp.token ≡ token)
          × Becomes env user.user_id (active token) p q}
        (record { at = λ p token e. (e, λ key. (create_token-Keeps env key t user.user_id).at p) })
        (λ token.
          Ensures-bind {R = λ p u q. Becomes env user.user_id (active token) p q}
            {S = λ u p resp q. (resp.user_id ≡ user.user_id) × (resp.token ≡ token) × Same env p q}
            (store_token-Ensures env user.user_id token)
            (λ u.
              Ensures-bind {R = λ p v q. Same env p q}
                {S = λ v.
                  Returned
                    (record { user_id = user.user_id; nickname = user.nickname; token = token })}
                (Keeps-Ensures (λ key.
                  clean_meetings-Keeps env key ctx user.user_id kick_off_duplicated_login
                    env.duplicated_login))
                (λ v. Ensures-pure _)
                (λ p q v resp r same back. (
                  ap (λ x. x.user_id) back.0,
                  ap (λ x. x.token) back.0,
                  λ key. ap (λ x. state_of env key x.calls) back.1 ∙ same key,
                )))
            (λ p q u resp r b back. (back.0, back.1, Becomes-Same env p q r b back.2)))
        (λ p q token resp r (made, same) (who, what, b).
          (who, made ∙ ap ok (sym what), rw what (Same-Becomes env p q r same b)))

  -- The account that was asked for was found, with the hash of the password that was given, and the
  -- token was made for its user after the lookup.
  abbrev pub LoggedIn : Token → UserLoginReq → Effect UserLoginResp
  LoggedIn t req p resp q =
      (user : User) × ((get_by_account env req.account p).0 ≡ ok user)
      × ((verify_password env req.password user.salt_value == user.password) ≡ true)
      × (resp.user_id ≡ user.user_id)
      × ((create_token env t user.user_id (get_by_account env req.account p).1).0 ≡ ok resp.token)
      × Becomes env user.user_id (active resp.token) p q

  pub as_coded-ok :
      {A : Type 0} (code : ℕ) (r : Result A) (a : A) → as_coded code r ≡ ok a → r ≡ ok a
  as_coded-ok code (ok b) a e = e
  as_coded-ok code (err x) a e = absurd (cc e)

  -- A login that succeeds has found the account with the hash of the password given, answers the
  -- id of that user, leaves the session of the user active with the token answered, and the
  -- sessions of all other users as they were.
  pub user_login-Ensures :
      (t : Token) (ctx : Context) (req : UserLoginReq)
      → Ensures (LoggedIn t req) (user_login env t ctx req)
  unfolding user_login
  user_login-Ensures t ctx req =
      Ensures-bind
        {S = λ found p resp q.
          (user : User) × (found ≡ ok user)
          × ((verify_password env req.password user.salt_value == user.password) ≡ true)
          × Opened t user p resp q}
        (Ensures-attempt (get_by_account env req.account))
        (λ found.
          Ensures-bind {R = λ p user q. (as_coded password_err found ≡ ok user) × (q ≡ p)}
            {S = λ user p resp q.
              ((verify_password env req.password user.salt_value == user.password) ≡ true)
              × Opened t user p resp q}
            (Ensures-lift _)
            (λ user.
              Ensures-unless _ (coded password_err)
                λ right. Ensures-weaken (open_session-Ensures t ctx user) λ p resp q o. (right, o))
            (λ p q user resp r e o.
              (user, as_coded-ok password_err found user e.0, o.0, rw (sym e.1) o.1)))
        (λ p q found resp r before (user, e, right, (who, made, b)). (
          user,
          sym before.0 ∙ e,
          right,
          who,
          ap (λ x. (create_token env t user.user_id x).0) (sym before.1) ∙ made,
          Same-Becomes env p q r
              (λ key.
                ap (λ x. state_of env key x.calls) before.1
                ∙ (get_by_account-Keeps env key req.account).at p)
              b,
        ))

  pub user_logout-Ensures :
      (ctx : Context) (user_id : String)
      → Ensures (λ p u q. Becomes env user_id closed p q) (user_logout env ctx user_id)
  unfolding user_logout
  user_logout-Ensures ctx user_id =
      Ensures-bind {R = λ p u q. Becomes env user_id closed p q} {S = λ u p v q. Same env p q}
        (clear_user_token-Ensures env user_id)
        (λ u.
          Keeps-Ensures
            (λ key. clean_meetings-Keeps env key ctx user_id kick_off_logout env.logout))
        (λ p q u v r b same. Becomes-Same env p q r b same)

  pub mark_kicked_off-Ensures :
      (user_id : String)
      → Ensures
          (λ p u q. Becomes env user_id (active kick_off_meeting_msg) p q)
          (mark_kicked_off env user_id)
  unfolding mark_kicked_off
  mark_kicked_off-Ensures user_id = store_token-Ensures env user_id kick_off_meeting_msg

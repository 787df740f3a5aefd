-- ===== src/Middleware/Access.antt =====
-- The check of the middleware against the sessions of the user service.
use openmeeting_server.Base.{
  ℕ, ◌+◌, ◌<◌, if◌then◌else◌, [], String, ◌≡◌, ◌≢◌, refl, sym, ◌∙◌, ◌==◌, ap, not,
}
use openmeeting_server.Result.{ok}
use openmeeting_server.Constants.{kick_off_meeting_msg}
use openmeeting_server.Env
use openmeeting_server.Env.{Env, Process}
use openmeeting_server.Ensures.{Ensures, Ensures-bind, Ensures-pure, Returned}
use openmeeting_server.Token.{Token}
use openmeeting_server.UserService.{user_logout, get_user_token}
use openmeeting_server.Meeting.Requests.{Context}
use openmeeting_server.Sessions.{active, Faithful, state_of}
use openmeeting_server.Sessions.Parsing.{Read, Accepted, get_token-Ensures}
use openmeeting_server.Rpc.{remote}
use openmeeting_server.Env.{Exec}
use openmeeting_server.Sessions.Keeps.{Keeps-ask}
use openmeeting_server.Sessions.Effects.{Same, Keeps-Ensures}
use openmeeting_server.UserStorage.{get_token}
use openmeeting_server.Sessions.Handlers.{as_coded-ok}
use openmeeting_server.Sessions.Keeps.{Keeps-unless}
use openmeeting_server.Result.{args}
use openmeeting_server.Sessions.Parsing.{Accepted-Same, get_user_of_token-Keeps}
use openmeeting_server.Constants.{not_found_user_token_err}
use openmeeting_server.Base.{List, ◌∷◌}
use openmeeting_server.Env.{Call}
use openmeeting_server.Storage.Key.{get_user_token_key}
use openmeeting_server.Sessions.Steps.{Reach, Reach-session}
use openmeeting_server.Sessions.Handlers.{user_logout-Ensures}
use openmeeting_server.Middleware.{check_token, is_valid_token, parse_header}
use openmeeting_server.Middleware.Stored.{check_stored_iff, check_stored-Keeps}

module _ (env : Env) where
  -- What the handler found out about the session was also so before the request for it.
  Read-remote :
      (name user_id : String) {handler : Exec String}
      → Ensures (Read env user_id) handler
      → Ensures (Read env user_id) (remote env name handler)
  unfolding remote
  Read-remote name user_id h =
      Ensures-bind {R = λ p u q. Same env p q} {S = λ u. Read env user_id}
        (Keeps-Ensures
          (λ key. Keeps-ask (Env.rpc_request name) (λ h. env.rpc_request_answer h name) refl))
        (λ u.
          Ensures-bind {R = Read env user_id}
            {S = λ value p answer q. (answer ≡ value) × Same env p q} h
            (λ value.
              Ensures-bind {R = λ p v q. Same env p q} {S = λ v. Returned value}
                (Keeps-Ensures (λ key.
                  Keeps-ask (Env.rpc_response name) (λ h. env.rpc_response_answer h name) refl))
                (λ v. Ensures-pure value)
                (λ p q v answer r same back.
                  (back.0, λ key. ap (λ x. state_of env key x.calls) back.1 ∙ same key)))
            (λ p q value answer r read (who, same).
              rw who (read.0, read.1, λ key. same key ∙ read.2 key)))
        (λ p q u answer r same read.
          (λ c. read.0 (same _ ∙ c), λ x s. read.1 x (same _ ∙ s), λ key. read.2 key ∙ same key))

  get_user_token-Ensures :
      Faithful env → (user_id : String) → Ensures (Read env user_id) (get_user_token env user_id)
  unfolding get_user_token
  get_user_token-Ensures faithful user_id = record {
    at = λ p value e.
        (get_token-Ensures env faithful user_id).at p value
          (as_coded-ok env not_found_user_token_err (get_token env user_id p).0 value e);
  }

  is_valid_token-Ensures :
      Faithful env
      → (user_id token : String)
      → Ensures (λ p u q. Accepted env token p user_id q) (is_valid_token env user_id token)
  unfolding is_valid_token
  is_valid_token-Ensures faithful user_id token =
      Ensures-bind {R = Read env user_id}
        {S = λ stored p u q. (stored ≡ token) × (stored ≢ kick_off_meeting_msg) × Same env p q}
        (Read-remote "GetUserToken" user_id (get_user_token-Ensures faithful user_id))
        (λ stored. record {
          at = λ p u e.
              let (own, mark, empty) = (check_stored_iff stored token p).0 e in
              (own, mark, λ key. (check_stored-Keeps env key stored token).at p);
        })
        (λ p q stored u r read (own, mark, same). (
          read.0,
          λ x s. (sym own ∙ read.1 x s, λ e. mark (read.1 x s ∙ e)),
          λ key. same key ∙ read.2 key,
        ))

  pub check_token-Ensures :
      (t : Token) (token : String)
      → Faithful env
      → Ensures (Accepted env token) (check_token env t token)
  unfolding check_token parse_header
  check_token-Ensures t token faithful =
      Ensures-bind {R = λ p user_id q. Same env p q}
        {S = λ user_id p answer q. (answer ≡ user_id) × Accepted env token p user_id q}
        (Keeps-Ensures
          (λ key. Keeps-unless (not (token == "")) args (get_user_of_token-Keeps env key t token)))
        (λ user_id.
          Ensures-bind {R = λ p u q. Accepted env token p user_id q} {S = λ u. Returned user_id}
            (is_valid_token-Ensures faithful user_id token) (λ u. Ensures-pure user_id)
            (λ p q u answer r accepted back. (
              back.0,
              (
                accepted.0,
                accepted.1,
                λ key. ap (λ x. state_of env key x.calls) back.1 ∙ accepted.2 key,
              ),
            )))
        (λ p q user_id answer r same accepted.
          Accepted-Same env token user_id answer p q r same accepted.0 accepted.1)

-- When a key expires, by a clock that the calls so far determine: at the time that the last call that
-- sets it gives to it.
unfoldable pub deadline : (List Call → ℕ) → String → List Call → ℕ
deadline clock key [] = 0
deadline clock key (Env.set_key k v ttl ∷ h) =
    let rest = deadline clock key h in if k == key then clock h + ttl else rest
deadline clock key (_ ∷ h) = deadline clock key h

-- Redis and the transport answer: the value written last is read until it expires, by the clock of
-- Redis, in seconds.
pub record Available (env : Env) (clock : List Call → ℕ) : Type 0 where
  pub request : (h : List Call) (name : String) → env.rpc_request_answer h name ≡ ok tt
  pub response : (h : List Call) (name : String) → env.rpc_response_answer h name ≡ ok tt
  pub read :
      (h : List Call) (key v : String)
      → state_of env key h ≡ active v
      → clock h < deadline clock key h
      → env.read_key_answer h key ≡ ok v

-- The key of the session has not expired when the check of a token after `p` reads it.
abbrev pub IsAlive : (List Call → ℕ) → String → Process → Type 0
IsAlive clock user_id p =
    clock (Env.rpc_request "GetUserToken" ∷ Env.current_time ∷ p.calls)
    < deadline clock (get_user_token_key user_id) p.calls

module _ (env : Env) (t : Token) where
  -- After a logout that succeeded, and whatever was asked of the user service since then but a
  -- login, a logout or a kick-off of that user (registrations in a transaction that runs once), no
  -- request passes the middleware as this user, as long as Redis reads back what was written.
  pub user_logout-check_token :
      (ctx : Context) (user_id : String) (p q : Process) (token : String)
      → Faithful env
      → (user_logout env ctx user_id p).0 ≡ ok tt
      → Reach env t user_id (user_logout env ctx user_id p).1 q
      → (check_token env t token q).0 ≢ ok user_id
  user_logout-check_token ctx user_id p q token faithful logout since accepted =
      let ended = (user_logout-Ensures env ctx user_id).at p tt logout in
      ((check_token-Ensures env t token faithful).at q user_id accepted).0
        (Reach-session env t user_id since ∙ ended.0)

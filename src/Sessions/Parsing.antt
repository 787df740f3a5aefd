-- ===== src/Sessions/Parsing.antt =====
-- `ParseToken` against the sessions.
use openmeeting_server.Base.{String}
use openmeeting_server.Base.{◌≢◌, ◌≡◌, refl, ◌∙◌}
use openmeeting_server.UserStorage.{get_token}
use openmeeting_server.Token.{get_user_of_token, user_of, Token}
use openmeeting_server.UserService.{parse_token}
use openmeeting_server.Sessions.{closed, active, after_call, state_of}
use openmeeting_server.Sessions.Effects.{Same, Keeps-Ensures}
use openmeeting_server.Result.{coded, ok}
use openmeeting_server.Base.{ap, eq_iff, differs_iff, String}
use openmeeting_server.Calendar.{unix}
use openmeeting_server.Constants.{kick_off_meeting_error}
use openmeeting_server.Ensures.{Ensures-unless, Ensures-pure}
use openmeeting_server.Sessions.Keeps.{Keeps, Keeps-ask, Keeps-bind, Keeps-lift}
use openmeeting_server.Env.{Process}
use openmeeting_server.Env
use openmeeting_server.Env.{Env}
use openmeeting_server.Constants.{kick_off_meeting_msg}
use openmeeting_server.Ensures.{Ensures, Effect, Ensures-bind, Ensures-weaken, Ensures-unless}
use openmeeting_server.Sessions.{Faithful, session}

module _ (env : Env) where
  -- What the value that was read tells of the session.
  abbrev pub Read : String → Effect String
  Read user_id p value q =
      (session env user_id p ≢ closed)
      × ((x : String) → session env user_id p ≡ active x → value ≡ x)
      × Same env p q

  pub get_token-Ensures :
      Faithful env → (user_id : String) → Ensures (Read user_id) (get_token env user_id)
  unfolding get_token state_of after_call
  get_token-Ensures faithful user_id = record {
    at = λ p value e. (
      λ s. faithful.after_remove _ value p.calls s e,
      λ x s. faithful.after_set _ value x p.calls s e,
      λ key. refl,
    );
  }

  pub get_user_of_token-Keeps :
      (key : String) (t : Token) (token : String) → Keeps env key (get_user_of_token env t token)
  unfolding get_user_of_token
  get_user_of_token-Keeps key t token =
      Keeps-bind (Keeps-ask Env.current_time (λ h. ok (env.time_answer h)) refl)
        λ now. Keeps-lift (user_of (env.parse_claims (unix now) token t.secret))

  -- The session of the user that was answered was not closed, and when it was opened with a token,
  -- then with this one, which is not the mark of those who were kicked off. No session changes.
  abbrev pub Accepted : String → Effect String
  Accepted token p user_id q =
      (session env user_id p ≢ closed)
      × ((x : String) → session env user_id p ≡ active x → (token ≡ x) × (x ≢ kick_off_meeting_msg))
      × Same env p q

  pub Accepted-Same :
      (token user_id answer : String) (p q r : Process)
      → Same env p q
      → answer ≡ user_id
      → Accepted token q user_id r
      → Accepted token p answer r
  Accepted-Same token user_id answer p q r same who (not_closed, own, after) =
      rw who (λ c. not_closed (same _ ∙ c), λ x s. own x (same _ ∙ s), λ key. after key ∙ same key)

  pub parse_token-Ensures :
      (t : Token) (token : String)
      → Faithful env
      → Ensures (Accepted token) (parse_token env t token)
  unfolding parse_token
  parse_token-Ensures t token faithful =
      Ensures-bind {R = λ p user_id q. Same env p q}
        {S = λ user_id p answer q. (answer ≡ user_id) × Accepted token p user_id q}
        (Keeps-Ensures (λ key. get_user_of_token-Keeps key t token))
        (λ user_id.
          Ensures-bind
            {S = λ value p answer q.
              (answer ≡ user_id) × (q ≡ p) × (token ≡ value) × (value ≢ kick_off_meeting_msg)}
            (get_token-Ensures faithful user_id)
            (λ value. Ensures-unless _ (coded kick_off_meeting_error) λ different.
              Ensures-unless _ (coded kick_off_meeting_error) λ equal.
                Ensures-weaken (Ensures-pure user_id)
                  λ p answer q (a, b). (a, b, (eq_iff _ _).0 equal, (differs_iff _ _).0 different))
            (λ p q value answer r read own. (
              own.0,
              (
                read.0,
                λ x s. (own.2 ∙ read.1 x s, λ e. own.3 (read.1 x s ∙ e)),
                λ key. ap (λ u. state_of env key u.calls) own.1 ∙ read.2 key,
              ),
            )))
        (λ p q user_id answer r same accepted.
          Accepted-Same token user_id answer p q r same accepted.0 accepted.1)

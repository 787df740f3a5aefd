-- ===== src/Middleware/Stored.antt =====
-- The comparison of the token of a request with the stored one.
use openmeeting_server.Base.{
  String, Bool, true, false, ◌≡◌, ◌≢◌, refl, ◌==◌, not, eq_iff, differs_iff, ◌&&◌, ◌||◌, ◌↔◌,
}
use openmeeting_server.Result.{ok, coded, token_expired}
use openmeeting_server.Constants.{kick_off_meeting_msg, kick_off_meeting_error}
use openmeeting_server.Env.{Env, Process, unless, pure}
use openmeeting_server.Sessions.Keeps.{Keeps, Keeps-pure}
use openmeeting_server.Sessions.Keeps.{Keeps, Keeps-pure, Keeps-unless}
use openmeeting_server.Middleware.{check_stored}

-- The three guards, by their tests: the mark, the empty text, the token of the request.
passes :
    (mark empty own : Bool) (p : Process)
    → ((unless
          (not mark)
          (coded kick_off_meeting_error)
          (unless
            (not (not empty && not own))
            (coded kick_off_meeting_error)
            (unless (not (empty || not own)) token_expired (pure tt)))
          p).0
        ≡ ok tt)
      ↔ ((own ≡ true) × (not mark ≡ true) × (not empty ≡ true))
passes true empty own p = (λ e. absurd (cc e), λ h. absurd (cc h.1))
passes false true true p = (λ e. absurd (cc e), λ h. absurd (cc h.2))
passes false true false p = (λ e. absurd (cc e), λ h. absurd (cc h.2))
passes false false true p = (λ e. (refl, refl, refl), λ h. refl)
passes false false false p = (λ e. absurd (cc e), λ h. absurd (cc h.0))

-- The three comparisons of isValidToken let a request pass exactly when the stored token is the
-- one of the request, not the mark of a kick-off, and not empty.
pub check_stored_iff :
    (stored user_token : String) (p : Process)
    → ((check_stored stored user_token p).0 ≡ ok tt)
      ↔ ((stored ≡ user_token) × (stored ≢ kick_off_meeting_msg) × (stored ≢ ""))
unfolding check_stored
check_stored_iff stored user_token p =
    let tests = passes (stored == kick_off_meeting_msg) (stored == "") (stored == user_token) p in
    (
      λ e.
          let (own, mark, empty) = tests.0 e in
          ((eq_iff _ _).0 own, (differs_iff _ _).0 mark, (differs_iff _ _).0 empty),
      λ h. tests.1 ((eq_iff _ _).1 h.0, (differs_iff _ _).1 h.1, (differs_iff _ _).1 h.2),
    )

module _ (env : Env) where
  pub check_stored-Keeps :
      (key stored user_token : String) → Keeps env key (check_stored stored user_token)
  unfolding check_stored
  check_stored-Keeps key stored user_token =
      Keeps-unless (not (stored == kick_off_meeting_msg)) (coded kick_off_meeting_error) (
        Keeps-unless (not (not (stored == "") && not (stored == user_token)))
          (coded kick_off_meeting_error)
          (Keeps-unless (not (stored == "" || not (stored == user_token))) token_expired
            (Keeps-pure tt)))

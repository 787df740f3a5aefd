-- ===== src/Sessions/Effects.antt =====
-- Effects on the sessions, and what the calls on the tokens do to them.
use openmeeting_server.Base.{
  String, ◌≡◌, ◌≢◌, refl, sym, ◌∙◌, inl, inr, true, false, ◌==◌, eq_iff, arith, Bool-cases,
}
use openmeeting_server.Result.{ok}
use text.Mathlib.TextLemmas.{append_cancel_left}
use openmeeting_server.Base.Int.{ℤ}
use openmeeting_server.Storage.Key.{user_token_key}
use openmeeting_server.Env
use openmeeting_server.Env.{Env, Process, Exec}
use openmeeting_server.Ensures.{Ensures}
use openmeeting_server.Storage.Key.{get_user_token_key}
use openmeeting_server.Token.{Token, create_token, build_claims}
use openmeeting_server.UserStorage.{store_token, clear_user_token, get_by_account}
use openmeeting_server.UserService.{clean_meetings}
use openmeeting_server.Meeting.Requests.{Context}
use openmeeting_server.Sessions.{Session, active, closed, state_of, session, after_call}
use openmeeting_server.Sessions.Keeps.{Keeps, Keeps-ask, Keeps-bind, Keeps-lift}
use openmeeting_server.Sessions.Frame.{clean_previous_meetings-Keeps, remote-Keeps}

get_user_token_key-injective : (a b : String) → get_user_token_key a ≡ get_user_token_key b → a ≡ b
unfolding get_user_token_key
get_user_token_key-injective a b e = append_cancel_left user_token_key a b e

key_self : (user_id : String) → (get_user_token_key user_id == get_user_token_key user_id) ≡ true
key_self user_id = (eq_iff _ _).1 refl

pub key-other :
    (user_id x : String)
    → x ≢ user_id
    → (get_user_token_key user_id == get_user_token_key x) ≡ false
key-other user_id x ne = elim (Bool-cases (get_user_token_key user_id == get_user_token_key x)) [
  | inl same ↦ absurd (ne (sym (get_user_token_key-injective user_id x ((eq_iff _ _).0 same))))
  | inr other ↦ other
]

-- The session of one user becomes `s`, and those of all others stay.
abbrev pub Becomes : Env → String → Session → Process → Process → Type 0
Becomes env user_id s p q =
    (session env user_id q ≡ s) × ((x : String) → x ≢ user_id → session env x q ≡ session env x p)

abbrev pub Same : Env → Process → Process → Type 0
Same env p q = (key : String) → state_of env key q.calls ≡ state_of env key p.calls

pub Keeps-Ensures :
    {env : Env} {A : Type 0} {m : Exec A}
    → ((key : String) → Keeps env key m)
    → Ensures (λ p a q. Same env p q) m
Keeps-Ensures h = record { at = λ p a e key. (h key).at p }

module _ (env : Env) where
  pub store_token-Ensures :
      (user_id token : String)
      → Ensures (λ p u q. Becomes env user_id (active token) p q) (store_token env user_id token)
  unfolding store_token state_of after_call
  store_token-Ensures user_id token = record {
    at = λ p u e.
        let done : env.set_key_answer p.calls (get_user_token_key user_id) token ≡ ok u = e in
        (rw (key_self user_id, done), λ x ne. rw (key-other user_id x ne));
  }

  pub clear_user_token-Ensures :
      (user_id : String)
      → Ensures (λ p u q. Becomes env user_id closed p q) (clear_user_token env user_id)
  unfolding clear_user_token state_of after_call
  clear_user_token-Ensures user_id = record {
    at = λ p u e.
        let done : env.remove_key_answer p.calls (get_user_token_key user_id) ≡ ok u = e in
        (rw (key_self user_id, done), λ x ne. rw (key-other user_id x ne));
  }

  pub create_token-Keeps :
      (key : String) (t : Token) (user_id : String) → Keeps env key (create_token env t user_id)
  unfolding create_token
  create_token-Keeps key t user_id =
      Keeps-bind (Keeps-ask Env.current_time (λ h. ok (env.time_answer h)) refl)
        λ now. Keeps-lift (env.sign_claims (build_claims t user_id now) t.secret)

  pub clean_meetings-Keeps :
      (key : String) (ctx : Context) (user_id reason : String) (code : ℤ)
      → Keeps env key (clean_meetings env ctx user_id reason code)
  unfolding clean_meetings
  clean_meetings-Keeps key ctx user_id reason code =
      remote-Keeps env key "CleanPreviousMeetings" (clean_previous_meetings-Keeps env key ctx _)

  pub get_by_account-Keeps :
      (key : String) (account : String) → Keeps env key (get_by_account env account)
  unfolding get_by_account state_of
  get_by_account-Keeps key account = record { at = λ p. ground arith }

  -- A session that was opened stays, while the rest keeps the keys.
  pub Becomes-Same :
      {user_id : String} {s : Session} (p q r : Process)
      → Becomes env user_id s p q
      → Same env q r
      → Becomes env user_id s p r
  Becomes-Same p q r (opened, others) same =
      (same (get_user_token_key _) ∙ opened, λ x ne. same (get_user_token_key x) ∙ others x ne)

  pub Same-Becomes :
      {user_id : String} {s : Session} (p q r : Process)
      → Same env p q
      → Becomes env user_id s q r
      → Becomes env user_id s p r
  Same-Becomes p q r same (opened, others) =
      (opened, λ x ne. others x ne ∙ same (get_user_token_key x))

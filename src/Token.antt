-- ===== src/Token.antt =====
-- pkg/common/token/token.go: access tokens, on the JWT library of the environment.
pub mod RoundTrip
use openmeeting_server.Base.{String, true, false, ◌||◌, not, none, some, if◌then◌else◌, ◌-◌}
use openmeeting_server.Base.Int.{ℤ, pos, negsuc, ltb_ℤ, int64, ◌*ℤ◌}
use openmeeting_server.Calendar.{Time, unix, add_duration}
use openmeeting_server.Result.{
  Result, ok, err, token_malformed, token_expired, token_not_valid_yet, token_unknown,
}
use openmeeting_server.Env
use openmeeting_server.Env.{◌>>=◌, Env, Claims, Parsed, invalid, failed, parsed, Exec, lift, ask}

pub record Token : Type 0 where
  -- a duration in nanoseconds
  pub expires : ℤ
  pub secret : String

-- `time.Duration(expire) * time.Hour * 24`, each product an int64
unfoldable pub new : ℤ → String → Token
unfolding int64 ◌*ℤ◌
new expire secret = record {
  expires = int64 (int64 (expire *ℤ pos 3600000000000) *ℤ pos 24);
  secret = secret;
}

-- A `NumericDate` is cut to seconds.
unfoldable pub build_claims : Token → String → Time → Claims
unfolding add_duration unix
build_claims t user_id now = record {
  user_id = user_id;
  expires_at = unix (add_duration now t.expires);
  issued_at = unix now;
  not_before = unix (add_duration now (negsuc (60000000000 - 1)));
}

-- `getToken`, after the call of the library
unfoldable pub user_of : Parsed → Result String
user_of (invalid true expired not_valid_yet) = err token_malformed
user_of (invalid false true not_valid_yet) = err token_expired
user_of (invalid false false true) = err token_not_valid_yet
user_of (invalid false false false) = err token_unknown
user_of failed = err token_not_valid_yet
user_of (parsed (some claims) true) = ok claims.user_id
user_of (parsed (some claims) false) = err token_not_valid_yet
user_of (parsed none valid) = err token_not_valid_yet

-- The documented check of the three times of a token whose signature is right.
abbrev pub check_claims : ℤ → Claims → Parsed
check_claims time claims =
    let expired = not (ltb_ℤ time claims.expires_at) in
    let not_valid_yet = ltb_ℤ time claims.not_before in
    if expired || (not_valid_yet || ltb_ℤ time claims.issued_at)
    then invalid false expired not_valid_yet
    else parsed (some claims) true

module _ (env : Env) (t : Token) where
  unfoldable pub create_token : String → Exec String
  unfolding build_claims
  create_token user_id = do
    now ← ask Env.current_time (λ h. ok (env.time_answer h))
    lift (env.sign_claims (build_claims t user_id now) t.secret)

  unfoldable pub get_user_of_token : String → Exec String
  unfolding user_of unix
  get_user_of_token token = do
    now ← ask Env.current_time (λ h. ok (env.time_answer h))
    lift (user_of (env.parse_claims (unix now) token t.secret))

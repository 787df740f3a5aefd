-- ===== src/Sessions.antt =====
-- What Redis holds of the token of a user, as far as the calls of the service tell.
pub mod Keeps
pub mod Frame
pub mod Effects
pub mod Handlers
pub mod Parsing
pub mod Registering
pub mod Steps
pub mod Access
use openmeeting_server.Base.{String, List, [], ◌∷◌, ◌≡◌, ◌==◌, if◌then◌else◌, ◌≢◌}
use openmeeting_server.Result.{Result, ok, err}
use openmeeting_server.Env
use openmeeting_server.Env.{Env, Call, Process}
use openmeeting_server.Storage.Key.{get_user_token_key}

-- `unknown`: no write of the key was made yet, or the last one failed, and may have been done or not.
pub data Session : Type 0 where
  unknown : Session
  closed : Session
  active : String → Session

abbrev written : Result (Unit {0}) → Session → Session
written (ok u) s = s
written (err e) s = unknown

-- The state of a key after one more call.
unfoldable pub after_call : Env → String → Call → List Call → Session → Session
after_call env key (Env.set_key k v ttl) h s =
    if k == key then written (env.set_key_answer h k v) (active v) else s
after_call env key (Env.remove_key k) h s =
    if k == key then written (env.remove_key_answer h k) closed else s
after_call env key _ h s = s

unfoldable pub state_of : Env → String → List Call → Session
unfolding after_call
state_of env key [] = unknown
state_of env key (c ∷ h) = after_call env key c h (state_of env key h)

-- The session of a user.
abbrev pub session : Env → String → Process → Session
session env user_id p = state_of env (get_user_token_key user_id) p.calls

-- What the program relies on of Redis, when nobody else writes the keys of the tokens: a key that is
-- read has the value that was written last, and a key that was removed is not there. It may expire.
pub record Faithful (env : Env) : Type 0 where
  pub after_set :
      (key value v : String) (h : List Call)
      → state_of env key h ≡ active v
      → env.read_key_answer h key ≡ ok value
      → value ≡ v
  pub after_remove :
      (key value : String) (h : List Call)
      → state_of env key h ≡ closed
      → env.read_key_answer h key ≢ ok value

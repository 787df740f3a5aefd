-- ===== src/Router.antt =====
-- internal/api/router.go: the routes of the HTTP API.
pub mod Handlers
pub mod Guarded
pub mod Served
use openmeeting_server.Base.{
  String, List, [], ◌∷◌, Bool, true, false, Option, none, some, ◌==◌, if◌then◌else◌, ◌++◌,
}
use openmeeting_server.Result.{Result, record_not_found}
use openmeeting_server.Env.{Env, Exec, raise, lift, ◌>>=◌, ◌>>◌}
use openmeeting_server.Token.{Token}
use openmeeting_server.Middleware.{check_token}
use openmeeting_server.Meeting.Requests.{Context}
use openmeeting_server.Router.Handlers.{
  Decoder, Reply, on_user_register, on_user_login, on_get_users_public_info, on_user_logout,
  on_book_meeting, on_create_immediate_meeting, on_join_meeting, on_get_meeting_token,
  on_leave_meeting, on_end_meeting, on_get_meetings, on_get_meeting,
  on_get_personal_meeting_settings, on_modify_meeting_participant_nick_name,
  on_remove_meeting_participants, on_set_meeting_host_info, on_set_personal_meeting_settings,
  on_update_meeting, on_operate_meeting_all_stream, on_update_user_password,
}

-- `POST` of a path: with `mwApi.CheckToken` in front of the handler, or without
pub record Route : Type 0 where
  pub path : String
  pub checks_token : Bool
  pub handler : Context → String → Exec Reply

abbrev pub post : String → (Context → String → Exec Reply) → Route
post path handler = record { path = path; checks_token = false; handler = handler }

abbrev pub post_checked : String → (Context → String → Exec Reply) → Route
post_checked path handler = record { path = path; checks_token = true; handler = handler }

unfoldable pub find_route : String → List Route → Option Route
find_route path [] = none
find_route path (r ∷ rs) = if r.path == path then some r else find_route path rs

-- What gin and the middleware of the libraries add: `mw.GinParseToken` with the secret and its list of
-- paths, at the path and the token of a request, and the context of the calls, for the user that the
-- middleware has set.
pub record Gin : Type 0 where
  pub gin_parse_token : String → List String → String → String → Result (Unit {0})
  pub context_of : Option String → Context

abbrev whitelist : List String
whitelist = "" ∷ []

pub record Request : Type 0 where
  pub path : String
  pub token : String
  pub body : String

module _ (env : Env) (gin : Gin) (codec : Decoder) (t : Token) where
  -- The group "/user"
  unfoldable pub user_routes : List Route
  unfolding on_user_register on_user_login on_get_users_public_info on_user_logout
      on_update_user_password
  user_routes =
      post "/user/register" (on_user_register env codec t)
      ∷ post "/user/login" (on_user_login env codec t)
      ∷ post_checked "/user/get_users_info" (on_get_users_public_info env codec t)
      ∷ post_checked "/user/update_user_password" (on_update_user_password env codec t)
      ∷ post_checked "/user/logout" (on_user_logout env codec t)
      ∷ []

  -- The group "/meeting"
  unfoldable pub meeting_routes : List Route
  unfolding on_book_meeting on_create_immediate_meeting on_join_meeting on_get_meeting_token
      on_leave_meeting on_end_meeting on_get_meetings on_get_meeting
      on_get_personal_meeting_settings on_modify_meeting_participant_nick_name
      on_remove_meeting_participants on_set_meeting_host_info on_set_personal_meeting_settings
      on_update_meeting on_operate_meeting_all_stream
  meeting_routes =
      post_checked "/meeting/book_meeting" (on_book_meeting env codec t)
      ∷ post_checked "/meeting/create_immediate_meeting" (on_create_immediate_meeting env codec t)
      ∷ post_checked "/meeting/join_meeting" (on_join_meeting env codec t)
      ∷ post_checked "/meeting/get_meeting_token" (on_get_meeting_token env codec t)
      ∷ post_checked "/meeting/update_meeting" (on_update_meeting env codec t)
      ∷ post_checked "/meeting/get_meeting" (on_get_meeting env codec t)
      ∷ post_checked "/meeting/get_meetings" (on_get_meetings env codec t)
      ∷ post_checked "/meeting/leave_meeting" (on_leave_meeting env codec t)
      ∷ post_checked "/meeting/end_meeting" (on_end_meeting env codec t)
      ∷ post_checked "/meeting/set_personal_setting" (on_set_personal_meeting_settings env codec t)
      ∷ post_checked "/meeting/get_personal_setting" (on_get_personal_meeting_settings env codec t)
      ∷ post_checked "/meeting/operate_meeting_all_stream"
          (on_operate_meeting_all_stream env codec t)
      ∷ post_checked "/meeting/modify_meeting_participant_name"
          (on_modify_meeting_participant_nick_name env codec t)
      ∷ post_checked "/meeting/remove_participants" (on_remove_meeting_participants env codec t)
      ∷ post_checked "/meeting/set_meeting_host_info" (on_set_meeting_host_info env codec t)
      ∷ []

  unfoldable pub routes : List Route
  unfolding user_routes meeting_routes
  routes = user_routes ++ meeting_routes

  -- The handlers of a route, in their order; the middleware sets the user of the token.
  unfoldable pub run_route : Request → Route → Exec Reply
  unfolding check_token
  run_route req r =
      if r.checks_token
      then check_token env t req.token
        >>= (λ user_id. r.handler (gin.context_of (some user_id)) req.body)
      else r.handler (gin.context_of none) req.body

  -- A path with no route is answered by gin with its own error.
  unfoldable pub on_route : Request → Option Route → Exec Reply
  unfolding run_route
  on_route req none = raise record_not_found
  on_route req (some r) = run_route req r

  -- A request, after the middleware of the libraries
  unfoldable pub serve_request : Request → Exec Reply
  unfolding on_route find_route routes
  serve_request req = do
    lift (gin.gin_parse_token t.secret whitelist req.path req.token)
    on_route req (find_route req.path routes)

-- ===== src/ApiServer.antt =====
-- internal/api/init.go and router.go, and internal/api/admin/init.go and router.go: the start of the
-- two HTTP servers, until the process ends. The routes are those of Router and the handlers of Admin.
pub mod Ending
use openmeeting_server.Base.{
  ◌&&◌, not, String, List, [], ◌∷◌, Bool, true, false, if◌then◌else◌, eqb,
}
use openmeeting_server.Base.Int.{ℤ}
use openmeeting_server.Config
use openmeeting_server.Result.{hang}
use openmeeting_server.Startup.{
  Launch, Outcome, done, failed, panicked, exited, pure, fail, lift, note, ask, ◌>>=◌, ◌>>◌,
}
use openmeeting_server.Startup.Platform.{
  Platform, Event, Progress, metrics_up, metrics_failed, serve_failed, Wake, sigterm, net_done,
  sigterm_noted, http_shutdown, http_started,
}
use openmeeting_server.RpcServer.{Shared, no_progress, with_error, error_of, new_discovery_register}
use openmeeting_server.Services.{
  connect_mongo, connect_redis, prepare_collection, new_meeting_user_client, new_meeting_client,
}

-- `Config` of internal/api
pub record ApiConfig : Type 0 where
  pub api : Config.Api
  pub discovery : Config.Discovery
  pub share : Config.Share

-- `Config` of internal/api/admin
pub record AdminConfig : Type 0 where
  pub admin_api : Config.Api
  pub discovery : Config.Discovery
  pub share : Config.Share
  pub redis : Config.Redis
  pub mongo : Config.Mongo

-- One step of a goroutine: the metrics run only when they are on.
unfoldable pub http_advance : Bool → Progress → Shared → Shared
http_advance on metrics_up s = s
http_advance on (metrics_failed e) s = if on then with_error e s else s
http_advance on (serve_failed e) s = with_error e s

unfoldable pub run_http : Bool → List Progress → Shared → Shared
unfolding http_advance
run_http on [] s = s
run_http on (step ∷ steps) s = run_http on steps (http_advance on step s)

-- The goroutine of the metrics has used the router: when that is nil, the process panics.
unfoldable pub uses_router : List Progress → Bool
uses_router [] = false
uses_router (metrics_up ∷ steps) = true
uses_router (metrics_failed e ∷ steps) = true
uses_router (serve_failed e ∷ steps) = uses_router steps

-- A router that could not be made is a nil one, whatever the reason, unless the process has exited.
abbrev pub nil_on_error :
    {A : Type 0} → Outcome A → List Event → (A → Launch Bool) → Outcome Bool × List Event
nil_on_error (done a) h f = f a h
nil_on_error (failed e) h f = (done false, h)
nil_on_error panicked h f = (panicked, h)
nil_on_error exited h f = (exited, h)

abbrev pub or_nil : {A : Type 0} → Launch A → (A → Launch Bool) → Launch Bool
or_nil m f h = nil_on_error (m h).0 (m h).1 f

module _ (plat : Platform) where
  -- The two cases of the `select`
  unfoldable pub on_http_wake : String → Wake → Shared → Launch (Unit {0})
  on_http_wake addr sigterm s = do
    note sigterm_noted
    ask (http_shutdown addr) (λ h. plat.shutdown_answer h addr)
  on_http_wake addr net_done s = if eqb s.net_done 0 then fail hang else error_of tt s.net_err

  -- The goroutines run from here on.
  unfoldable pub await_http : Bool → Bool → String → Launch (Unit {0})
  unfolding on_http_wake run_http uses_router
  await_http metrics_on has_router addr h =
      let steps = (plat.background h).0 in
      if metrics_on && not has_router && uses_router steps
      then (panicked, h)
      else on_http_wake addr (plat.background h).1 (run_http metrics_on steps no_progress) h

  -- From the router, which may be nil, to the end
  unfoldable pub serve_http : Config.Api → ℤ → Bool → Launch (Unit {0})
  unfolding await_http
  serve_http api port has_router =
      let addr = plat.join_host_port (plat.listen_ip api.api.listen_ip) port in
      note (http_started addr has_router) >> await_http api.prometheus.enable has_router addr

  -- `newGinRouter`: the clients of the two services
  unfoldable pub new_gin_router : ApiConfig → Launch Bool
  unfolding new_meeting_user_client new_meeting_client
  new_gin_router config = do
    new_meeting_user_client plat config.share.rpc_register_name.user
    new_meeting_client plat config.share.rpc_register_name.meeting
    pure true

  -- `newAdminGinRouter` answers nil when the storage is not there.
  unfoldable pub new_admin_gin_router : AdminConfig → Launch Bool
  unfolding connect_mongo connect_redis prepare_collection new_meeting_user_client
  new_admin_gin_router config = or_nil (connect_mongo plat config.mongo) (λ u.
      or_nil (connect_redis plat config.redis) (λ v.
        or_nil (prepare_collection plat "user")
          (λ w. do new_meeting_user_client plat config.share.rpc_register_name.user; pure true)))

  -- `Start` of internal/api
  unfoldable pub start_api : ApiConfig → ℤ → Launch (Unit {0})
  unfolding new_discovery_register new_gin_router serve_http
  start_api config index = do
    api_port ← lift (plat.elem_by_index config.api.api.ports index)
    prometheus_port ← lift (plat.elem_by_index config.api.prometheus.ports index)
    new_discovery_register plat config.discovery
    router ← new_gin_router config
    serve_http config.api api_port router

  -- `Start` of internal/api/admin
  unfoldable pub start_admin : AdminConfig → ℤ → Launch (Unit {0})
  unfolding new_discovery_register new_admin_gin_router serve_http
  start_admin config index = do
    api_port ← lift (plat.elem_by_index config.admin_api.api.ports index)
    prometheus_port ← lift (plat.elem_by_index config.admin_api.prometheus.ports index)
    new_discovery_register plat config.discovery
    router ← new_admin_gin_router config
    serve_http config.admin_api api_port router

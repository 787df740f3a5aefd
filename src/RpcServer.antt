-- ===== src/RpcServer.antt =====
-- pkg/common/startrpc/start.go, with pkg/common/discoveryregister and the metrics of
-- pkg/common/prommetrics: the start of a gRPC service, until the process ends. The goroutines are a
-- schedule of what they do before the process wakes.
pub mod Resources
pub mod Registering
pub mod Waking
pub mod Finishing
use openmeeting_server.Base.{
  String, List, [], ◌∷◌, Bool, not, ◌&&◌, Option, none, some, ◌==◌, if◌then◌else◌, ℕ, ◌+◌, eqb,
}
use openmeeting_server.Base.Int.{ℤ, pos, eqb_ℤ}
use openmeeting_server.Config
use openmeeting_server.Result.{Err, plain, hang}
use openmeeting_server.Startup.{
  Launch, pure, fail, crash, lift, note, ask, acquire, defer, ◌>>=◌, ◌>>◌,
}
use openmeeting_server.Startup.Platform.{
  Platform, Progress, metrics_up, metrics_failed, serve_failed, Wake, sigterm, net_done, listener,
  discovery_client, closed, metrics_registered, grpc_server_made, registered, sigterm_noted,
  grpc_stopped, http_shutdown,
}

-- What the goroutines of a server share: the metrics server once it is made, the last error, and how
-- many of them have failed.
pub record Shared : Type 0 where
  pub http_server : Option String
  pub net_err : Option Err
  pub net_done : ℕ

abbrev pub no_progress : Shared
no_progress = record { http_server = none; net_err = none; net_done = 0 }

-- A goroutine writes the error and then sends.
abbrev pub with_error : Err → Shared → Shared
with_error e s = record s { net_err = some e; net_done = s.net_done + 1 }

-- `prometheusConfig.Enable && prometheusPort != 0`
unfoldable pub serves_metrics : Bool → ℤ → Bool
serves_metrics enable port = enable && not (eqb_ℤ port (pos 0))

-- The metrics server can only fail once it is made.
abbrev pub metrics_error : Err → Option String → Shared → Shared
metrics_error e none s = s
metrics_error e (some addr) s = with_error e s

-- One step of a goroutine; the one of the metrics does nothing when they are off.
unfoldable pub advance : Bool → String → Progress → Shared → Shared
advance on addr metrics_up s = if on then record s { http_server = some addr } else s
advance on addr (metrics_failed e) s = metrics_error e s.http_server s
advance on addr (serve_failed e) s = with_error e s

unfoldable pub run_goroutines : Bool → String → List Progress → Shared → Shared
unfolding advance
run_goroutines on addr [] s = s
run_goroutines on addr (step ∷ steps) s = run_goroutines on addr steps (advance on addr step s)

abbrev pub error_of : {A : Type 0} → A → Option Err → Launch A
error_of a none = pure a
error_of a (some e) = fail e

module _ (plat : Platform) where
  unfoldable pub new_discovery_register : Config.Discovery → Launch (Unit {0})
  new_discovery_register discovery =
      if discovery.enable == "etcd"
      then acquire discovery_client (λ h. plat.etcd_answer h discovery.etcd)
      else fail plain

  -- `MustRegister` panics on a collector that it does not accept.
  unfoldable pub new_grpc_prom_obj : Launch (Unit {0})
  new_grpc_prom_obj h = if plat.metrics_accepted h then note metrics_registered h else crash h

  -- `gracefulStopWithCtx`: the stop is begun, and given up after its time.
  unfoldable pub graceful_stop_with_ctx : Launch (Unit {0})
  graceful_stop_with_ctx h =
      if plat.stops_in_time h then note grpc_stopped h else fail plain (grpc_stopped ∷ h)

  -- `httpServer.Shutdown`, which follows the pointer
  unfoldable pub shutdown_metrics : Option String → Launch (Unit {0})
  shutdown_metrics none = crash
  shutdown_metrics (some addr) = ask (http_shutdown addr) (λ h. plat.shutdown_answer h addr)

  -- The two cases of the `select`. A channel on which nobody has sent is never received from.
  unfoldable pub on_wake : Wake → Shared → Launch (Unit {0})
  unfolding graceful_stop_with_ctx shutdown_metrics
  on_wake sigterm s = do note sigterm_noted; graceful_stop_with_ctx; shutdown_metrics s.http_server
  on_wake net_done s = if eqb s.net_done 0 then fail hang else error_of tt s.net_err

  -- From the start of the goroutines to the end
  unfoldable pub serve : Config.Prometheus → ℤ → Launch (Unit {0})
  unfolding on_wake run_goroutines serves_metrics
  serve prometheus prometheus_port h =
      on_wake (plat.background h).1
        (run_goroutines (serves_metrics prometheus.enable prometheus_port)
          (plat.join_host_port "0.0.0.0" prometheus_port) (plat.background h).0 no_progress)
        h

  module _ (discovery : Config.Discovery) (prometheus : Config.Prometheus)
      (listen_ip register_ip : String) (rpc_ports : List ℤ) (index : ℤ) (rpc_register_name : String)
      (rpc_fn : Launch (Unit {0})) where
    -- The service enters itself at the server, the server is registered and served.
    unfoldable pub with_server : ℤ → ℤ → String → Launch (Unit {0})
    unfolding serve
    with_server rpc_port prometheus_port ip = do
      rpc_fn
      ask (registered rpc_register_name ip rpc_port)
          (λ h. plat.register_answer h rpc_register_name rpc_port)
      serve prometheus prometheus_port

    unfoldable pub with_client : ℤ → ℤ → Launch (Unit {0})
    unfolding new_grpc_prom_obj with_server
    with_client rpc_port prometheus_port = do
      ip ← lift (plat.rpc_register_ip register_ip)
      if prometheus.enable then new_grpc_prom_obj else pure tt
      note grpc_server_made
      defer grpc_stopped (with_server rpc_port prometheus_port ip)

    unfoldable pub with_listener : ℤ → ℤ → Launch (Unit {0})
    unfolding new_discovery_register with_client
    with_listener rpc_port prometheus_port = do
      new_discovery_register discovery
      defer (closed discovery_client) (with_client rpc_port prometheus_port)

    unfoldable pub listen_on : ℤ → ℤ → String → Launch (Unit {0})
    unfolding with_listener
    listen_on rpc_port prometheus_port addr = do
      acquire (listener addr) (λ h. plat.listen_answer h addr)
      defer (closed (listener addr)) (with_listener rpc_port prometheus_port)

    -- `Start`
    unfoldable pub start : Launch (Unit {0})
    unfolding listen_on
    start = do
      rpc_port ← lift (plat.elem_by_index rpc_ports index)
      prometheus_port ← lift (plat.elem_by_index prometheus.ports index)
      listen_on rpc_port prometheus_port (plat.join_host_port (plat.listen_ip listen_ip) rpc_port)

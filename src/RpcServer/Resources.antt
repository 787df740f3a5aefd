-- ===== src/RpcServer/Resources.antt =====
-- The resources of a gRPC service when its start ends.
use openmeeting_server.Base.{String, ◌==◌, Bool-cases, inl, inr, refl, List, arith, Option, some}
use openmeeting_server.Base.Int.{ℤ}
use openmeeting_server.Config
use openmeeting_server.Startup.{Launch}
use openmeeting_server.Startup.Platform.{
  Platform, Wake, sigterm, net_done, discovery_client, listener, open_resources,
}
use openmeeting_server.Startup.Balance.{
  IsBalanced, IsBalanced-pure, IsBalanced-crash, IsBalanced-lift, IsBalanced-ask, IsBalanced-if,
  IsBalanced-note, IsBalanced-bind, IsBalanced-defer, IsBalanced-acquire,
}
use openmeeting_server.RpcServer.{
  run_goroutines, serves_metrics, no_progress, registered, grpc_server_made, grpc_stopped,
}
use openmeeting_server.Base.{Option, none, some}
use openmeeting_server.RpcServer.{
  Shared, new_discovery_register, new_grpc_prom_obj, graceful_stop_with_ctx, shutdown_metrics,
  on_wake, serve, with_server, with_client, with_listener, listen_on, start,
}

module _ (plat : Platform) where
  pub new_grpc_prom_obj-IsBalanced : IsBalanced (new_grpc_prom_obj plat)
  unfolding new_grpc_prom_obj open_resources
  new_grpc_prom_obj-IsBalanced = record { at = λ h ne. ground arith }

  graceful_stop_with_ctx-IsBalanced : IsBalanced (graceful_stop_with_ctx plat)
  unfolding graceful_stop_with_ctx open_resources
  graceful_stop_with_ctx-IsBalanced = record { at = λ h ne. ground arith }

  shutdown_metrics-IsBalanced : (server : Option String) → IsBalanced (shutdown_metrics plat server)
  unfolding shutdown_metrics open_resources
  shutdown_metrics-IsBalanced none = IsBalanced-crash
  shutdown_metrics-IsBalanced (some addr) = IsBalanced-ask _ _ (λ h. refl)

  on_wake-IsBalanced : (wake : Wake) (s : Shared) → IsBalanced (on_wake plat wake s)
  unfolding on_wake open_resources
  on_wake-IsBalanced sigterm s = IsBalanced-bind (IsBalanced-note _ (λ h. refl)) (λ u.
      IsBalanced-bind graceful_stop_with_ctx-IsBalanced
        (λ v. shutdown_metrics-IsBalanced s.http_server))
  on_wake-IsBalanced net_done s = record { at = λ h ne. grind arith }

  serve-IsBalanced :
      (prometheus : Config.Prometheus) (port : ℤ) → IsBalanced (serve plat prometheus port)
  unfolding serve
  serve-IsBalanced prometheus port = record {
    at = λ h.
        (on_wake-IsBalanced (plat.background h).1 (
            run_goroutines (serves_metrics prometheus.enable port)
              (plat.join_host_port "0.0.0.0" port) (plat.background h).0 no_progress)).at
          h;
  }

  module _ (discovery : Config.Discovery) (prometheus : Config.Prometheus)
      (listen_ip register_ip : String) (rpc_ports : List ℤ) (index : ℤ) (rpc_register_name : String)
      (rpc_fn : Launch (Unit {0})) (balanced : IsBalanced rpc_fn) where
    with_server-IsBalanced :
        (rpc_port prometheus_port : ℤ) (ip : String)
        → IsBalanced (
            with_server plat discovery prometheus listen_ip register_ip rpc_ports index
              rpc_register_name rpc_fn rpc_port prometheus_port ip)
    unfolding with_server open_resources
    with_server-IsBalanced rpc_port prometheus_port ip = IsBalanced-bind balanced (λ w.
        IsBalanced-bind
          (IsBalanced-ask (registered rpc_register_name ip rpc_port)
            (λ h. plat.register_answer h rpc_register_name rpc_port) (λ h. refl))
          (λ x. serve-IsBalanced prometheus prometheus_port))

    with_client-IsBalanced :
        (rpc_port prometheus_port : ℤ)
        → IsBalanced (
            with_client plat discovery prometheus listen_ip register_ip rpc_ports index
              rpc_register_name rpc_fn rpc_port prometheus_port)
    unfolding with_client open_resources
    with_client-IsBalanced rpc_port prometheus_port =
        IsBalanced-bind (IsBalanced-lift (plat.rpc_register_ip register_ip)) (λ ip.
          IsBalanced-bind
            (IsBalanced-if prometheus.enable new_grpc_prom_obj-IsBalanced (IsBalanced-pure tt))
            (λ u. IsBalanced-bind (IsBalanced-note grpc_server_made (λ h. refl)) (λ v.
              IsBalanced-defer grpc_stopped (λ h. refl)
                (with_server-IsBalanced rpc_port prometheus_port ip))))

    with_listener-IsBalanced :
        (rpc_port prometheus_port : ℤ)
        → IsBalanced (
            with_listener plat discovery prometheus listen_ip register_ip rpc_ports index
              rpc_register_name rpc_fn rpc_port prometheus_port)
    unfolding with_listener new_discovery_register
    with_listener-IsBalanced rpc_port prometheus_port =
        elim (Bool-cases (discovery.enable == "etcd")) [
          | inl e ↦ rw e (
              IsBalanced-acquire discovery_client _
                (with_client-IsBalanced rpc_port prometheus_port))
          | inr e ↦ rw e (record { at = λ h ne. refl })
        ]

    -- However the start of a gRPC service ends, by an error, by the signal or by a panic, the
    -- resources that it opened are given back, as long as the service itself gives back its own and
    -- the process does not exit at once.
    pub start-IsBalanced : IsBalanced (
        start plat discovery prometheus listen_ip register_ip rpc_ports index rpc_register_name
          rpc_fn)
    unfolding start listen_on
    start-IsBalanced =
        IsBalanced-bind (IsBalanced-lift (plat.elem_by_index rpc_ports index)) (λ rpc_port.
          IsBalanced-bind (IsBalanced-lift (plat.elem_by_index prometheus.ports index))
            (λ prometheus_port.
              let addr = plat.join_host_port (plat.listen_ip listen_ip) rpc_port in
              IsBalanced-acquire (listener addr) (λ h. plat.listen_answer h addr)
                (with_listener-IsBalanced rpc_port prometheus_port)))

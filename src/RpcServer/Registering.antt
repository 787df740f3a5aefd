-- ===== src/RpcServer/Registering.antt =====
-- When a gRPC service is registered at the discovery service.
use openmeeting_server.Base.{
  String, List, ◌∷◌, ◌≡◌, inl, inr, refl, ◌∙◌, if◌then◌else◌, Bool-cases, ◌==◌, ap, arith,
}
use openmeeting_server.Base.Int.{ℤ}
use openmeeting_server.Config
use openmeeting_server.Result.{ok}
use openmeeting_server.Startup.Success.{of_result-eq-done}
use openmeeting_server.Startup.{Launch, of_result}
use openmeeting_server.Startup.Platform.{
  Platform, Event, Resource, listener, discovery_client, opened, registrations, Registration,
  open_resources,
}
use openmeeting_server.Startup.Balance.{IsBalanced, IsBalanced-if, IsBalanced-pure}
use openmeeting_server.RpcServer.Resources.{new_grpc_prom_obj-IsBalanced}
use openmeeting_server.RpcServer.{
  start, serve, with_server, with_client, with_listener, listen_on, on_wake, new_grpc_prom_obj,
  registered, graceful_stop_with_ctx, shutdown_metrics, pure, new_discovery_register, closed,
  grpc_stopped, grpc_server_made,
}
use openmeeting_server.Startup.Registering.{
  One, RegistersNone, RegistersNone-pure, RegistersNone-if, One-after, One-bind, One-then,
  One-finish, One-acquire,
}

-- The name and the address that are registered, and what is open then
pub record IsAnnounced (plat : Platform) (rpc_register_name listen_ip register_ip : String)
    (rpc_ports : List ℤ) (index : ℤ) (rest : List Resource) (r : Registration) (before : List Event)
    : Type 0 where
  pub name : r.name ≡ rpc_register_name
  pub port : plat.elem_by_index rpc_ports index ≡ ok r.port
  pub ip : plat.rpc_register_ip register_ip ≡ ok r.ip
  pub open_before :
      open_resources before
      ≡ discovery_client ∷ listener (plat.join_host_port (plat.listen_ip listen_ip) r.port) ∷ rest

opens :
    {rs : List Resource} (r : Resource) (h : List Event)
    → open_resources h ≡ rs
    → open_resources (opened r ∷ h) ≡ r ∷ rs
unfolding open_resources
opens r h e = ap (λ x. r ∷ x) e

module _ (plat : Platform) where
  serve-RegistersNone :
      (prometheus : Config.Prometheus) (port : ℤ) → RegistersNone (serve plat prometheus port)
  unfolding serve on_wake registrations graceful_stop_with_ctx shutdown_metrics
  serve-RegistersNone prometheus port = record { at = λ h. grind arith }

  new_grpc_prom_obj-RegistersNone : RegistersNone (new_grpc_prom_obj plat)
  unfolding new_grpc_prom_obj registrations
  new_grpc_prom_obj-RegistersNone = record { at = λ h. ground arith }

  module _ (discovery : Config.Discovery) (prometheus : Config.Prometheus)
      (listen_ip register_ip : String) (rpc_ports : List ℤ) (index : ℤ) (rpc_register_name : String)
      (rpc_fn : Launch (Unit {0})) (balanced : IsBalanced rpc_fn)
      (quiet : RegistersNone rpc_fn) where
    with_server-One :
        (rest : List Resource) (rpc_port prometheus_port : ℤ) (ip : String) (h : List Event)
        → plat.elem_by_index rpc_ports index ≡ ok rpc_port
        → plat.rpc_register_ip register_ip ≡ ok ip
        → open_resources h
          ≡ discovery_client
            ∷ listener (plat.join_host_port (plat.listen_ip listen_ip) rpc_port)
            ∷ rest
        → One
            (IsAnnounced plat rpc_register_name listen_ip register_ip rpc_ports index rest)
            h
            (with_server plat discovery prometheus listen_ip register_ip rpc_ports index
              rpc_register_name rpc_fn rpc_port prometheus_port ip h).1
    unfolding with_server registrations
    with_server-One rest rpc_port prometheus_port ip h port addr open_before =
        One-bind _ (rpc_fn h).0 h (rpc_fn h).1 (quiet.at h) (λ u e.
          One-then _ (λ v. serve-RegistersNone prometheus prometheus_port)
            (of_result (plat.register_answer (rpc_fn h).1 rpc_register_name rpc_port)) (rpc_fn h).1
            (registered rpc_register_name ip rpc_port ∷ (rpc_fn h).1)
            (inr (
              record { name = rpc_register_name; ip = ip; port = rpc_port },
              (rpc_fn h).1,
              record {
                name = refl;
                port = port;
                ip = addr;
                open_before = balanced.at h (λ x. absurd (cc (x, e))) ∙ open_before;
              },
              refl,
            )))

    with_client-One :
        (rest : List Resource) (rpc_port prometheus_port : ℤ) (h : List Event)
        → plat.elem_by_index rpc_ports index ≡ ok rpc_port
        → open_resources h
          ≡ discovery_client
            ∷ listener (plat.join_host_port (plat.listen_ip listen_ip) rpc_port)
            ∷ rest
        → One
            (IsAnnounced plat rpc_register_name listen_ip register_ip rpc_ports index rest)
            h
            (with_client plat discovery prometheus listen_ip register_ip rpc_ports index
              rpc_register_name rpc_fn rpc_port prometheus_port h).1
    unfolding with_client registrations open_resources
    with_client-One rest rpc_port prometheus_port h port open_before =
        let metrics : Launch (Unit {0}) =
          if prometheus.enable then new_grpc_prom_obj plat else pure tt in
        let after = (metrics h).1 in
        One-bind _ (of_result (plat.rpc_register_ip register_ip)) h h refl (λ ip found.
          One-bind _ (metrics h).0 h after
            ((RegistersNone-if prometheus.enable new_grpc_prom_obj-RegistersNone
                (RegistersNone-pure tt)).at
              h)
            (λ u e.
              let served =
                with_server plat discovery prometheus listen_ip register_ip rpc_ports index
                  rpc_register_name rpc_fn rpc_port prometheus_port ip (grpc_server_made ∷ after) in
              One-finish grpc_stopped (λ k. refl) served.0 after served.1
                (One-after after (grpc_server_made ∷ after) served.1 refl (
                  with_server-One rest rpc_port prometheus_port ip (grpc_server_made ∷ after) port
                    (of_result-eq-done _ found)
                    ((IsBalanced-if prometheus.enable (new_grpc_prom_obj-IsBalanced plat)
                          (IsBalanced-pure tt)).at
                        h (λ x. absurd (cc (x, e)))
                      ∙ open_before)))))

    with_listener-One :
        (rest : List Resource) (rpc_port prometheus_port : ℤ) (h : List Event)
        → plat.elem_by_index rpc_ports index ≡ ok rpc_port
        → open_resources h
          ≡ listener (plat.join_host_port (plat.listen_ip listen_ip) rpc_port) ∷ rest
        → One
            (IsAnnounced plat rpc_register_name listen_ip register_ip rpc_ports index rest)
            h
            (with_listener plat discovery prometheus listen_ip register_ip rpc_ports index
              rpc_register_name rpc_fn rpc_port prometheus_port h).1
    unfolding with_listener new_discovery_register registrations
    with_listener-One rest rpc_port prometheus_port h port open_before =
        elim (Bool-cases (discovery.enable == "etcd")) [
          | inl e ↦ rw e (
              One-acquire discovery_client (closed discovery_client) (λ k. refl) _ h
                (plat.etcd_answer h discovery.etcd)
                (with_client-One rest rpc_port prometheus_port (opened discovery_client ∷ h) port
                  (opens discovery_client h open_before)))
          | inr e ↦ rw e (inl refl)
        ]

    -- The start of a gRPC service registers at most once, under its name, with the port that its
    -- listener has, and while the listener and the client of the discovery service are open, as long
    -- as the service itself registers nothing and gives back what it opens.
    pub start-registers :
        (h : List Event)
        → One
            (IsAnnounced plat rpc_register_name listen_ip register_ip rpc_ports index
              (open_resources h))
            h
            (start plat discovery prometheus listen_ip register_ip rpc_ports index rpc_register_name
              rpc_fn h).1
    unfolding start listen_on registrations
    start-registers h =
        One-bind _ (of_result (plat.elem_by_index rpc_ports index)) h h refl (λ rpc_port port.
          One-bind _ (of_result (plat.elem_by_index prometheus.ports index)) h h refl
            (λ prometheus_port found.
              let addr = plat.join_host_port (plat.listen_ip listen_ip) rpc_port in
              One-acquire (listener addr) (closed (listener addr)) (λ k. refl) _ h
                (plat.listen_answer h addr)
                (with_listener-One (open_resources h) rpc_port prometheus_port
                  (opened (listener addr) ∷ h) (of_result-eq-done _ port)
                  (opens (listener addr) h refl))))

-- ===== src/RpcServer/Finishing.antt =====
-- What must have happened when a gRPC service ends without an error.
use openmeeting_server.Base.{String, List, [], ◌∷◌, ◌≡◌, Bool-cases, ◌==◌, inl, inr, if◌then◌else◌}
use openmeeting_server.Base.Int.{ℤ}
use openmeeting_server.Config
use openmeeting_server.Result.{Result, ok, err, plain}
use openmeeting_server.Startup.Success.{continue-done, finish-done, of_result-eq-done}
use openmeeting_server.Startup.{◌>>=◌}
use openmeeting_server.Startup.Platform.{grpc_stopped, grpc_server_made, registered}
use openmeeting_server.Startup.{Launch, done, failed, continue, of_result, acquired}
use openmeeting_server.Startup.Platform.{
  Platform, Event, Resource, opened, listener, discovery_client, closed,
}
use openmeeting_server.RpcServer.{
  with_server, with_client, with_listener, listen_on, start, new_discovery_register, defer, acquire,
  registered, new_grpc_prom_obj, pure, grpc_server_made, grpc_stopped,
}
use openmeeting_server.RpcServer.Waking.{Shuts, serve-done_iff}

acquired-done :
    (r : Resource) (got : Result (Unit {0})) (m : Launch (Unit {0})) (h : List Event)
    → (continue (acquired r got h).0 (acquired r got h).1 (λ u. defer (closed r) m)).0 ≡ done tt
    → (m (opened r ∷ h)).0 ≡ done tt
acquired-done r (ok u) m h e =
    finish-done (closed r ∷ []) (m (opened r ∷ h)).0 (m (opened r ∷ h)).1 e
acquired-done r (err x) m h e = absurd (cc e)

acquire-done :
    (r : Resource) (answer : List Event → Result (Unit {0})) (m : Launch (Unit {0}))
    (h : List Event)
    → ((acquire r answer >>= (λ u. defer (closed r) m)) h).0 ≡ done tt
    → (m (opened r ∷ h)).0 ≡ done tt
acquire-done r answer m h e = acquired-done r (answer h) m h e

module _ (plat : Platform) (discovery : Config.Discovery) (prometheus : Config.Prometheus)
    (listen_ip register_ip : String) (rpc_ports : List ℤ) (index : ℤ) (rpc_register_name : String)
    (rpc_fn : Launch (Unit {0})) where
  with_server-done :
      (rpc_port prometheus_port : ℤ) (ip : String) (h : List Event)
      → (with_server plat discovery prometheus listen_ip register_ip rpc_ports index
          rpc_register_name rpc_fn rpc_port prometheus_port ip h).0
        ≡ done tt
      → (k : List Event) × Shuts plat prometheus prometheus_port k
  unfolding with_server
  with_server-done rpc_port prometheus_port ip h e =
      let ran = continue-done _ (rpc_fn h).0 (rpc_fn h).1 e in
      let entered =
        continue-done _ (of_result (plat.register_answer (rpc_fn h).1 rpc_register_name rpc_port))
          (registered rpc_register_name ip rpc_port ∷ (rpc_fn h).1) ran.2 in
      (
        registered rpc_register_name ip rpc_port ∷ (rpc_fn h).1,
        (serve-done_iff plat prometheus prometheus_port
              (registered rpc_register_name ip rpc_port ∷ (rpc_fn h).1)).0
            entered.2,
      )

  with_client-done :
      (rpc_port prometheus_port : ℤ) (h : List Event)
      → (with_client plat discovery prometheus listen_ip register_ip rpc_ports index
          rpc_register_name rpc_fn rpc_port prometheus_port h).0
        ≡ done tt
      → (k : List Event) × Shuts plat prometheus prometheus_port k
  unfolding with_client
  with_client-done rpc_port prometheus_port h e =
      let metrics : Launch (Unit {0}) =
        if prometheus.enable then new_grpc_prom_obj plat else pure tt in
      let addressed = continue-done _ (of_result (plat.rpc_register_ip register_ip)) h e in
      let measured = continue-done _ (metrics h).0 (metrics h).1 addressed.2 in
      with_server-done rpc_port prometheus_port addressed.0 (grpc_server_made ∷ (metrics h).1) (
        finish-done (grpc_stopped ∷ [])
          (with_server plat discovery prometheus listen_ip register_ip rpc_ports index
            rpc_register_name rpc_fn rpc_port prometheus_port addressed.0
            (grpc_server_made ∷ (metrics h).1)).0
          (with_server plat discovery prometheus listen_ip register_ip rpc_ports index
            rpc_register_name rpc_fn rpc_port prometheus_port addressed.0
            (grpc_server_made ∷ (metrics h).1)).1
          measured.2)

  with_listener-done :
      (rpc_port prometheus_port : ℤ) (h : List Event)
      → (with_listener plat discovery prometheus listen_ip register_ip rpc_ports index
          rpc_register_name rpc_fn rpc_port prometheus_port h).0
        ≡ done tt
      → (k : List Event) × Shuts plat prometheus prometheus_port k
  unfolding with_listener new_discovery_register
  with_listener-done rpc_port prometheus_port h e = elim (Bool-cases (discovery.enable == "etcd")) [
    | inl etcd ↦ with_client-done rpc_port prometheus_port (opened discovery_client ∷ h) (
        acquire-done discovery_client (λ k. plat.etcd_answer k discovery.etcd)
          (with_client plat discovery prometheus listen_ip register_ip rpc_ports index
            rpc_register_name rpc_fn rpc_port prometheus_port)
          h (rw etcd at e))
    | inr other ↦
        absurd (let none_found : (failed plain) ≡ done tt = rw other at e in cc none_found)
  ]

  -- A gRPC service ends without an error only if the signal woke it, it stopped in time, Prometheus is
  -- on with a port of its index that is not 0, the metrics server has begun to listen, and it could be
  -- shut down: with Prometheus off it never ends without an error.
  pub start-Shuts :
      (h : List Event)
      → (start plat discovery prometheus listen_ip register_ip rpc_ports index rpc_register_name
          rpc_fn h).0
        ≡ done tt
      → (port : ℤ) × (k : List Event) × (plat.elem_by_index prometheus.ports index ≡ ok port)
        × Shuts plat prometheus port k
  unfolding start listen_on
  start-Shuts h e =
      let found = continue-done _ (of_result (plat.elem_by_index rpc_ports index)) h e in
      let measured =
        continue-done _ (of_result (plat.elem_by_index prometheus.ports index)) h found.2 in
      let addr = plat.join_host_port (plat.listen_ip listen_ip) found.0 in
      let ended = with_listener-done found.0 measured.0 (opened (listener addr) ∷ h) (
        acquire-done (listener addr) (λ k. plat.listen_answer k addr)
          (with_listener plat discovery prometheus listen_ip register_ip rpc_ports index
            rpc_register_name rpc_fn found.0 measured.0)
          h measured.2) in
      (
        measured.0,
        ended.0,
        of_result-eq-done (plat.elem_by_index prometheus.ports index) measured.1,
        ended.1,
      )

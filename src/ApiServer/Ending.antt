-- ===== src/ApiServer/Ending.antt =====
-- How the HTTP servers end, and how the one of the administration starts without its storage.
use openmeeting_server.Config.{build_mongo}
use openmeeting_server.Base.{
  ◌&&◌, not, ◌⊎◌, String, List, [], ◌∷◌, Bool, true, false, ◌≡◌, ◌↔◌, inl, inr, refl, Bool-cases,
  eqb, sym, ◌∙◌, ap, eq_iff,
}
use openmeeting_server.Base.Int.{ℤ}
use openmeeting_server.Config
use openmeeting_server.Result.{ok, err, Err, hang}
use openmeeting_server.Startup.{Outcome, panicked, done, failed, of_result}
use openmeeting_server.Startup.Platform.{
  Platform, Event, Progress, metrics_up, metrics_failed, serve_failed, Wake, sigterm, net_done,
  sigterm_noted, http_started, opened, discovery_client, mongo_connected,
}
use openmeeting_server.Startup.Success.{of_result-eq-done}
use openmeeting_server.RpcServer.{Shared, no_progress}
use openmeeting_server.RpcServer.Waking.{Explained}
use openmeeting_server.ApiServer.{
  uses_router, AdminConfig, http_advance, run_http, on_http_wake, await_http, serve_http,
  start_admin, new_admin_gin_router,
}

run_http-Explained :
    (on : Bool) (steps : List Progress) (s : Shared) → Explained s → Explained (run_http on steps s)
unfolding run_http http_advance
run_http-Explained on [] s h = h
run_http-Explained on (metrics_up ∷ steps) s h = run_http-Explained on steps s h
run_http-Explained true (metrics_failed e ∷ steps) s h =
    run_http-Explained true steps _ (inr (e, refl))
run_http-Explained false (metrics_failed e ∷ steps) s h = run_http-Explained false steps s h
run_http-Explained on (serve_failed e ∷ steps) s h = run_http-Explained on steps _ (inr (e, refl))

module _ (plat : Platform) where
  on_http_wake_net_done :
      (addr : String) (s : Shared) (h : List Event)
      → Explained s
      → (e : Err) × ((on_http_wake plat addr net_done s h).0 ≡ failed e)
  unfolding on_http_wake
  on_http_wake_net_done addr s h (inl e) = (hang, rw e refl)
  on_http_wake_net_done addr s h (inr (e, found)) = elim (Bool-cases (eqb s.net_done 0)) [
    | inl z ↦ (hang, rw z refl)
    | inr z ↦ (e, rw (z, found) refl)
  ]

  on_http_wake_sigterm :
      (addr : String) (s : Shared) (h : List Event)
      → (on_http_wake plat addr sigterm s h).0
        ≡ of_result (plat.shutdown_answer (sigterm_noted ∷ h) addr)
  unfolding on_http_wake
  on_http_wake_sigterm addr s h = refl

  module _ (api : Config.Api) (port : ℤ) (has_router : Bool) (h : List Event) where
    abbrev http_address : String
    http_address = plat.join_host_port (plat.listen_ip api.api.listen_ip) port

    abbrev begun : List Event
    begun = http_started http_address has_router ∷ h

    abbrev http_shared : Shared
    http_shared = run_http api.prometheus.enable (plat.background begun).0 no_progress

    -- The nil router was used.
    abbrev pub crashes : Bool
    crashes = api.prometheus.enable && not has_router && uses_router (plat.background begun).0

    serve_http-panics : crashes ≡ true → (serve_http plat api port has_router h).0 ≡ panicked
    unfolding serve_http await_http
    serve_http-panics crashed = rw crashed refl

    serve_http_wakes :
        (wake : Wake)
        → crashes ≡ false
        → (plat.background begun).1 ≡ wake
        → serve_http plat api port has_router h
          ≡ on_http_wake plat http_address wake http_shared begun
    unfolding serve_http await_http
    serve_http_wakes wake safe woken = rw (safe, woken) refl

    http-done :
        (wake : Wake)
        → crashes ≡ false
        → (plat.background begun).1 ≡ wake
        → (serve_http plat api port has_router h).0 ≡ done tt
        → ((plat.background begun).1 ≡ sigterm)
          × (plat.shutdown_answer (sigterm_noted ∷ begun) http_address ≡ ok tt)
    http-done net_done safe woken e =
        let (x, ended) = on_http_wake_net_done http_address http_shared begun (
          run_http-Explained api.prometheus.enable (plat.background begun).0 no_progress
            (inl refl)) in
        absurd (cc (e, serve_http_wakes net_done safe woken, ended))
    http-done sigterm safe woken e = (
      woken,
      of_result-eq-done (plat.shutdown_answer (sigterm_noted ∷ begun) http_address) (
          sym (on_http_wake_sigterm http_address http_shared begun)
          ∙ sym (ap (λ x. x.0) (serve_http_wakes sigterm safe woken))
          ∙ e),
    )

    -- How an HTTP server ends: it panics once its metrics use a nil router, and else it ends without an
    -- error exactly when the signal woke the process and the server could be shut down.
    abbrev pub Ends : Outcome (Unit {0}) → Type 0
    Ends outcome =
        ((crashes ≡ true) × (outcome ≡ panicked))
        ⊎ ((crashes ≡ false)
            × ((outcome ≡ done tt) ↔ (
                ((plat.background begun).1 ≡ sigterm)
                × (plat.shutdown_answer (sigterm_noted ∷ begun) http_address ≡ ok tt))))

    serve_http-Ends : Ends (serve_http plat api port has_router h).0
    serve_http-Ends = elim (Bool-cases crashes) [
      | inl crashed ↦ inl (crashed, serve_http-panics crashed)
      | inr safe ↦
          let clean : (serve_http plat api port has_router h).0 ≡ done tt ↔ (
              ((plat.background begun).1 ≡ sigterm)
              × (plat.shutdown_answer (sigterm_noted ∷ begun) http_address ≡ ok tt)) =
            (
              λ e. http-done (plat.background begun).1 safe refl e,
              λ s.
                  ap (λ x. x.0) (serve_http_wakes sigterm safe s.0)
                  ∙ on_http_wake_sigterm http_address http_shared begun
                  ∙ ap of_result s.1,
            ) in
          inr (safe, clean)
    ]

  -- When the server of the administration has its two ports, the client of etcd is made and MongoDB
  -- refuses the connection, the start goes on with a nil router: with Prometheus on it panics once
  -- the goroutine of the metrics has used the router, and else it ends without an error exactly
  -- when the signal wakes it and the server can be shut down.
  pub start_admin_without_mongo :
      (config : AdminConfig) (index api_port prometheus_port : ℤ) (h : List Event) (e : Err)
      → plat.elem_by_index config.admin_api.api.ports index ≡ ok api_port
      → plat.elem_by_index config.admin_api.prometheus.ports index ≡ ok prometheus_port
      → config.discovery.enable ≡ "etcd"
      → plat.etcd_answer h config.discovery.etcd ≡ ok tt
      → plat.mongo_answer (opened discovery_client ∷ h) (build_mongo config.mongo) ≡ err e
      → Ends config.admin_api api_port false
          (mongo_connected ∷ opened discovery_client ∷ h)
          (start_admin plat config index h).0
  unfolding start_admin new_admin_gin_router
  start_admin_without_mongo config index api_port prometheus_port h e port metrics_port kind found
        refused =
      rw (port, metrics_port, (eq_iff _ _).1 kind, found, refused)
        (serve_http-Ends config.admin_api api_port false
          (mongo_connected ∷ opened discovery_client ∷ h))

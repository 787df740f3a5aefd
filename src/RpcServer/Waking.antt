-- ===== src/RpcServer/Waking.antt =====
-- How a running gRPC service ends.
use openmeeting_server.Base.{
  String, List, [], ◌∷◌, Bool, true, false, ◌&&◌, Option, none, some, ◌≡◌, ◌↔◌, ◌⊎◌, inl, inr, refl,
  if◌then◌else◌, Bool-cases, ◌∙◌, sym, eqb,
}
use openmeeting_server.Base.Int.{ℤ}
use openmeeting_server.Config
use openmeeting_server.Result.{Result, ok, err, Err, plain, hang}
use openmeeting_server.Startup.{done, failed, panicked, of_result}
use openmeeting_server.Startup.Platform.{
  Platform, Event, Progress, metrics_up, metrics_failed, serve_failed, Wake, sigterm, net_done,
  sigterm_noted, grpc_stopped,
}
use openmeeting_server.RpcServer.{
  Shared, no_progress, serves_metrics, advance, run_goroutines, on_wake, graceful_stop_with_ctx,
  shutdown_metrics, serve, metrics_error,
}

-- The metrics server has begun to listen.
abbrev pub is_up : List Progress → Bool
is_up [] = false
is_up (metrics_up ∷ steps) = true
is_up (_ ∷ steps) = is_up steps

metrics_error-http_server :
    (e : Err) (o : Option String) (s : Shared) → (metrics_error e o s).http_server ≡ s.http_server
metrics_error-http_server e none s = refl
metrics_error-http_server e (some a) s = refl

-- A goroutine that has sent has left its error.
abbrev pub Explained : Shared → Type 0
Explained s = (s.net_done ≡ 0) ⊎ ((e : Err) × (s.net_err ≡ some e))

metrics_error-Explained :
    (e : Err) (o : Option String) (s : Shared) → Explained s → Explained (metrics_error e o s)
metrics_error-Explained e none s h = h
metrics_error-Explained e (some a) s h = inr (e, refl)

module _ (addr : String) where
  http_server_kept :
      (on : Bool) (steps : List Progress) (s : Shared)
      → s.http_server ≡ some addr
      → (run_goroutines on addr steps s).http_server ≡ some addr
  unfolding run_goroutines advance
  http_server_kept on [] s h = h
  http_server_kept true (metrics_up ∷ steps) s h = http_server_kept true steps _ refl
  http_server_kept false (metrics_up ∷ steps) s h = http_server_kept false steps s h
  http_server_kept on (metrics_failed e ∷ steps) s h =
      http_server_kept on steps _ (metrics_error-http_server e s.http_server s ∙ h)
  http_server_kept on (serve_failed e ∷ steps) s h = http_server_kept on steps _ h

  http_server_lem :
      (on : Bool) (steps : List Progress) (s : Shared)
      → s.http_server ≡ none
      → (run_goroutines on addr steps s).http_server
        ≡ (if on && is_up steps then some addr else none)
  unfolding run_goroutines advance
  http_server_lem true [] s h = h
  http_server_lem false [] s h = h
  http_server_lem true (metrics_up ∷ steps) s h = http_server_kept true steps _ refl
  http_server_lem false (metrics_up ∷ steps) s h = http_server_lem false steps s h
  http_server_lem on (metrics_failed e ∷ steps) s h =
      http_server_lem on steps _ (metrics_error-http_server e s.http_server s ∙ h)
  http_server_lem on (serve_failed e ∷ steps) s h = http_server_lem on steps _ h

  run_goroutines-Explained :
      (on : Bool) (steps : List Progress) (s : Shared)
      → Explained s
      → Explained (run_goroutines on addr steps s)
  unfolding run_goroutines advance
  run_goroutines-Explained on [] s h = h
  run_goroutines-Explained true (metrics_up ∷ steps) s h = run_goroutines-Explained true steps _ h
  run_goroutines-Explained false (metrics_up ∷ steps) s h = run_goroutines-Explained false steps s h
  run_goroutines-Explained on (metrics_failed e ∷ steps) s h =
      run_goroutines-Explained on steps _ (metrics_error-Explained e s.http_server s h)
  run_goroutines-Explained on (serve_failed e ∷ steps) s h =
      run_goroutines-Explained on steps _ (inr (e, refl))

module _ (plat : Platform) where
  on_wake_sigterm :
      (s : Shared) (h : List Event)
      → plat.stops_in_time (sigterm_noted ∷ h) ≡ true
      → (on_wake plat sigterm s h).0
        ≡ (shutdown_metrics plat s.http_server (grpc_stopped ∷ sigterm_noted ∷ h)).0
  unfolding on_wake graceful_stop_with_ctx
  on_wake_sigterm s h in_time = rw in_time refl

  on_wake_late :
      (s : Shared) (h : List Event)
      → plat.stops_in_time (sigterm_noted ∷ h) ≡ false
      → (on_wake plat sigterm s h).0 ≡ failed plain
  unfolding on_wake graceful_stop_with_ctx
  on_wake_late s h late = rw late refl

  shutdown_metrics_if :
      (b : Bool) (addr : String) (h : List Event)
      → (shutdown_metrics plat (if b then some addr else none) h).0
        ≡ (if b then of_result (plat.shutdown_answer h addr) else panicked)
  unfolding shutdown_metrics
  shutdown_metrics_if true addr h = refl
  shutdown_metrics_if false addr h = refl

  on_wake_net_done :
      (s : Shared) (h : List Event)
      → Explained s
      → (e : Err) × ((on_wake plat net_done s h).0 ≡ failed e)
  unfolding on_wake
  on_wake_net_done s h (inl e) = (hang, rw e refl)
  on_wake_net_done s h (inr (e, found)) = elim (Bool-cases (eqb s.net_done 0)) [
    | inl z ↦ (hang, rw z refl)
    | inr z ↦ (e, rw (z, found) refl)
  ]

module _ (plat : Platform) (prometheus : Config.Prometheus) (port : ℤ) (h : List Event) where
  abbrev metrics_address : String
  metrics_address = plat.join_host_port "0.0.0.0" port

  abbrev shared : Shared
  shared =
      run_goroutines (serves_metrics prometheus.enable port) metrics_address (plat.background h).0
        no_progress

  -- The signal to a service that stops in time: it ends as the shutdown of its metrics server does,
  -- and with a panic if there is none, which is so when Prometheus is off, when its port is 0, and
  -- when the goroutine of the metrics server has not come so far.
  pub serve_sigterm :
      (plat.background h).1 ≡ sigterm
      → plat.stops_in_time (sigterm_noted ∷ h) ≡ true
      → (serve plat prometheus port h).0 ≡ (
          if serves_metrics prometheus.enable port && is_up (plat.background h).0
          then of_result (plat.shutdown_answer (grpc_stopped ∷ sigterm_noted ∷ h) metrics_address)
          else panicked)
  unfolding serve
  serve_sigterm woken in_time =
      rw
        (
          woken,
          on_wake_sigterm plat shared h in_time,
          http_server_lem metrics_address (serves_metrics prometheus.enable port)
              (plat.background h).0 no_progress refl,
        )
        (shutdown_metrics_if plat _ metrics_address _)

  -- A service that wakes because a goroutine has failed ends with an error.
  serve_net_done :
      (plat.background h).1 ≡ net_done → (e : Err) × ((serve plat prometheus port h).0 ≡ failed e)
  unfolding serve
  serve_net_done woken = rw woken (
      on_wake_net_done plat shared h (
        run_goroutines-Explained metrics_address (serves_metrics prometheus.enable port)
          (plat.background h).0 no_progress (inl refl)))

  serve_late :
      (plat.background h).1 ≡ sigterm
      → plat.stops_in_time (sigterm_noted ∷ h) ≡ false
      → (serve plat prometheus port h).0 ≡ failed plain
  unfolding serve
  serve_late woken late = rw woken (on_wake_late plat shared h late)

  -- What has to happen for a service to end without an error
  pub record Shuts : Type 0 where
    pub woken : (plat.background h).1 ≡ sigterm
    pub in_time : plat.stops_in_time (sigterm_noted ∷ h) ≡ true
    pub metrics : (serves_metrics prometheus.enable port && is_up (plat.background h).0) ≡ true
    pub shut : plat.shutdown_answer (grpc_stopped ∷ sigterm_noted ∷ h) metrics_address ≡ ok tt

  of_result-done :
      (b : Bool) (r : Result (Unit {0}))
      → (if b then of_result r else panicked) ≡ done tt
      → (b ≡ true) × (r ≡ ok tt)
  of_result-done true (ok u) e = (refl, refl)
  of_result-done true (err x) e = absurd (cc e)
  of_result-done false r e = absurd (cc e)

  done-Shuts :
      (wake : Wake)
      → (plat.background h).1 ≡ wake
      → (serve plat prometheus port h).0 ≡ done tt
      → Shuts
  done-Shuts net_done woken e = absurd (cc (e, (serve_net_done woken).1))
  done-Shuts sigterm woken e = elim (Bool-cases (plat.stops_in_time (sigterm_noted ∷ h))) [
    | inl in_time ↦
        let both = of_result-done _ _ (sym (serve_sigterm woken in_time) ∙ e) in
        record { woken = woken; in_time = in_time; metrics = both.0; shut = both.1 }
    | inr late ↦ absurd (cc (e, serve_late woken late))
  ]

  -- A service ends without an error exactly when the signal woke it, it stopped in time, its metrics
  -- server is on and has begun to listen, and the shutdown of that one succeeds.
  pub serve-done_iff : ((serve plat prometheus port h).0 ≡ done tt) ↔ Shuts
  serve-done_iff = (
    λ e. done-Shuts (plat.background h).1 refl e,
    λ s. serve_sigterm s.woken s.in_time ∙ rw (s.metrics, s.shut) refl,
  )

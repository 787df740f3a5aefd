-- ===== src/Tests/Launching.antt =====
-- The theorems on commands, the start of the processes and the check of the components at a concrete
-- platform.
use openmeeting_server.Base.{
  String, List, [], ◌∷◌, ◌≡◌, ◌≢◌, refl, true, false, Bool, ◌==◌, not, arith,
}
use openmeeting_server.Base.Int.{ℤ, pos}
use openmeeting_server.Base.Lists.{count}
use openmeeting_server.Result.{ok, plain}
use openmeeting_server.Startup.{done, panicked, exited, Outcome}
use openmeeting_server.Startup.Platform.{
  Event, open_resources, opened, discovery_client, mongo_connected,
}
use openmeeting_server.Services.{start_user}
use openmeeting_server.RpcServer
use openmeeting_server.RpcServer.Waking.{Shuts}
use openmeeting_server.Startup.Registering.{One}
use openmeeting_server.RpcServer.Registering.{IsAnnounced}
use openmeeting_server.RpcServer.Finishing.{start-Shuts}
use openmeeting_server.Command.{CmdOpts}
use openmeeting_server.Command.{
  with_config_map, api_files, user_rpc_files, with_log_name, persistent_pre_run, run_meeting_rpc,
  run_user_rpc,
}
use openmeeting_server.Command.Prefix.{config_env_prefix, log_config_file_name}
use openmeeting_server.Command.Loading.{
  KeepsFiles, parsed_files, entries, persistent_pre_run-parsed,
}
use openmeeting_server.Command.Running.{run_rpc-gives_back, run_rpc-registers}
use openmeeting_server.ApiServer.{AdminConfig, start_admin}
use openmeeting_server.ApiServer.Ending.{Ends, start_admin_without_mongo}
use openmeeting_server.ComponentCheck.{Attempt, Components, checks, perform_checks}
use openmeeting_server.ComponentCheck.Rounds.{outcomes}
use openmeeting_server.ComponentCheck.Answers.{perform_checks_passed, perform_checks_failed}
use openmeeting_server.Tests.Platform.{
  platform, no_mongo, discovery, metrics, meeting_config, user_config, admin_config,
}

start-Shuts_example :
    (port : ℤ) × (k : List Event) × (platform.elem_by_index (pos 20100 ∷ []) (pos 0) ≡ ok port)
    × Shuts platform metrics port k
unfolding RpcServer.start start_user
start-Shuts_example =
    start-Shuts platform discovery metrics "0.0.0.0" "10.0.0.1" (pos 10100 ∷ []) (pos 0) "user"
      (start_user platform user_config) [] refl

meeting_ends : (run_meeting_rpc platform meeting_config (pos 0) []).0 ≡ done tt
unfolding run_meeting_rpc
meeting_ends = refl

user_ends : (run_user_rpc platform user_config (pos 0) []).0 ≡ done tt
unfolding run_user_rpc
user_ends = refl

done-ne-exited : {o : Outcome (Unit {0})} → o ≡ done tt → o ≢ exited
done-ne-exited e x = absurd (cc (e, x))

run_rpc-gives_back_example :
    (open_resources (run_meeting_rpc platform meeting_config (pos 0) []).1 ≡ open_resources [])
    × (open_resources (run_user_rpc platform user_config (pos 0) []).1 ≡ open_resources [])
run_rpc-gives_back_example =
    run_rpc-gives_back platform meeting_config user_config (pos 0) [] (done-ne-exited meeting_ends)
      (done-ne-exited user_ends)

run_rpc-registers_example :
    One
      (IsAnnounced platform "meeting" "0.0.0.0" "10.0.0.1"
        (pos 10100 ∷ [])
        (pos 0)
        (open_resources []))
      []
      (run_meeting_rpc platform meeting_config (pos 0) []).1
    × One
        (IsAnnounced platform "user" "0.0.0.0" "10.0.0.1"
          (pos 10100 ∷ [])
          (pos 0)
          (open_resources []))
        []
        (run_user_rpc platform user_config (pos 0) []).1
run_rpc-registers_example = run_rpc-registers platform meeting_config user_config (pos 0) []

start_admin_without_mongo_example :
    Ends no_mongo admin_config.admin_api
      (pos 11102)
      false
      (mongo_connected ∷ opened discovery_client ∷ [])
      (start_admin no_mongo admin_config (pos 0) []).0
start_admin_without_mongo_example =
    start_admin_without_mongo no_mongo admin_config (pos 0) (pos 11102) (pos 20113) [] plain refl
      refl refl refl refl

abbrev api_opts : List (CmdOpts → CmdOpts)
api_opts = with_config_map user_rpc_files ∷ with_config_map api_files ∷ with_log_name "api" ∷ []

log_name-KeepsFiles : (name : String) → KeepsFiles (with_log_name name)
unfolding with_log_name
log_name-KeepsFiles name opts = refl

persistent_pre_run-parsed_example :
    (directory : String) × (platform.get_string "config_folder_path" ≡ ok directory)
    × (platform.get_int "index" ≡ ok (pos 0))
    × (ordered : List String) × ((x : String) → count x ordered ≡ count x api_files)
    × (parsed_files (persistent_pre_run platform api_opts []).1
        ≡ (
          platform.join_path directory log_config_file_name,
          config_env_prefix log_config_file_name,
        )
          ∷ entries (platform.join_path directory) ordered (parsed_files []))
unfolding persistent_pre_run with_config_map api_files user_rpc_files with_log_name
persistent_pre_run-parsed_example =
    persistent_pre_run-parsed platform (with_config_map user_rpc_files ∷ [])
      (with_log_name "api" ∷ []) api_files [] (pos 0) (log_name-KeepsFiles "api", tt) (λ g x. refl)
      refl

-- MongoDB answers at the second attempt; the other components at once.
abbrev slow_mongo : List Attempt → String → Bool
slow_mongo [] name = not (name == "Mongo")
slow_mongo (a ∷ more) name = true

abbrev slow : Components
slow = record { answers = slow_mongo; range_order = λ attempts names. names }

-- Redis never answers.
abbrev without_redis : Components
without_redis = record {
  answers = λ attempts name. not (name == "Redis");
  range_order = λ attempts names. names;
}

perform_checks_passed_example :
    outcomes true "Mongo" (perform_checks slow discovery 3).1.attempts ≡ 1
unfolding perform_checks count
perform_checks_passed_example =
    perform_checks_passed slow discovery 3 "Mongo" (λ attempts x. refl) refl (omega arith)

perform_checks_failed_example :
    (x : String) × (count x (checks discovery) ≡ 1)
    × (outcomes true x (perform_checks without_redis discovery 3).1.attempts ≡ 0)
    × (outcomes false x (perform_checks without_redis discovery 3).1.attempts ≡ 3)
unfolding perform_checks
perform_checks_failed_example =
    perform_checks_failed without_redis discovery 3 (λ attempts x. refl) (omega arith) refl

serves_admin : (start_admin no_mongo admin_config (pos 0) []).0 ≡ done tt
unfolding start_admin
serves_admin = refl

-- The same configuration with Prometheus on
abbrev metered : AdminConfig
metered = record admin_config {
  admin_api = record admin_config.admin_api {
    prometheus = record admin_config.admin_api.prometheus { enable = true };
  };
}

metered_panics : (start_admin no_mongo metered (pos 0) []).0 ≡ panicked
unfolding start_admin
metered_panics = refl

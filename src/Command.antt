-- ===== src/Command.antt =====
-- pkg/common/cmd and pkg/common/config/load_config.go: the commands of the four processes, as far as
-- they read their configuration and start.
pub mod Prefix
pub mod Loading
pub mod Running
use openmeeting_server.Base.{String, List, [], ◌∷◌}
use openmeeting_server.Base.Int.{ℤ}
use openmeeting_server.Startup.{Launch, pure, lift, ask, ◌>>=◌, ◌>>◌}
use openmeeting_server.Startup.Platform.{
  Platform, config_read, config_parsed, logger_opened, console_logger_opened,
}
use openmeeting_server.Services.{MeetingConfig, UserConfig, start_meeting, start_user}
use openmeeting_server.ApiServer.{ApiConfig, AdminConfig, start_api, start_admin}
use openmeeting_server.RpcServer
use openmeeting_server.Command.Prefix.{
  config_env_prefix, redis_config_file_name, mongodb_config_file_name,
  open_meeting_api_cfg_file_name, open_meeting_admin_api_cfg_file_name,
  open_meeting_rpc_user_cfg_file_name, open_meeting_rpc_meeting_cfg_file_name,
  discovery_config_filename, log_config_file_name, share_file_name, live_kit_config_filename,
}

-- `CmdOpts`, with the names of the files in place of the structs that they fill
pub record CmdOpts : Type 0 where
  pub logger_prefix_name : String
  pub config_map : List String

unfoldable pub default_cmd_opts : CmdOpts
default_cmd_opts = record { logger_prefix_name = "openim-service-log"; config_map = [] }

unfoldable pub with_cron_task_log_name : CmdOpts → CmdOpts
with_cron_task_log_name opts = record opts { logger_prefix_name = "openim-crontask" }

unfoldable pub with_log_name : String → CmdOpts → CmdOpts
with_log_name log_name opts = record opts { logger_prefix_name = log_name }

unfoldable pub with_config_map : List String → CmdOpts → CmdOpts
with_config_map config_map opts = record opts { config_map = config_map }

-- The loop of `applyOptions`
unfoldable pub apply_each : List (CmdOpts → CmdOpts) → CmdOpts → CmdOpts
apply_each [] opts = opts
apply_each (opt ∷ rest) opts = apply_each rest (opt opts)

unfoldable pub apply_options : List (CmdOpts → CmdOpts) → CmdOpts
unfolding apply_each default_cmd_opts
apply_options opts = apply_each opts default_cmd_opts

-- The files of the commands
unfoldable pub user_rpc_files : List String
user_rpc_files =
    open_meeting_rpc_user_cfg_file_name ∷ redis_config_file_name ∷ mongodb_config_file_name
    ∷ share_file_name ∷ discovery_config_filename ∷ []

unfoldable pub meeting_rpc_files : List String
meeting_rpc_files =
    open_meeting_rpc_meeting_cfg_file_name ∷ redis_config_file_name ∷ mongodb_config_file_name
    ∷ share_file_name ∷ discovery_config_filename ∷ live_kit_config_filename ∷ []

unfoldable pub api_files : List String
api_files = open_meeting_api_cfg_file_name ∷ discovery_config_filename ∷ share_file_name ∷ []

unfoldable pub admin_api_files : List String
admin_api_files =
    open_meeting_admin_api_cfg_file_name ∷ discovery_config_filename ∷ share_file_name
    ∷ mongodb_config_file_name ∷ redis_config_file_name ∷ []

module _ (plat : Platform) where
  unfoldable pub load_config : String → String → Launch (Unit {0})
  load_config path env_prefix = do
    ask (config_read path env_prefix) (λ h. plat.read_in_config_answer h path)
    ask (config_parsed path env_prefix) (λ h. plat.unmarshal_answer h path)

  -- The loop over the map, in the order in which it is ranged over
  unfoldable pub load_each : String → List String → Launch (Unit {0})
  unfolding load_config config_env_prefix
  load_each directory [] = pure tt
  load_each directory (file ∷ files) = do
    load_config (plat.join_path directory file) (config_env_prefix file)
    load_each directory files

  -- The directory, and the index, which is kept
  unfoldable pub get_flag : Launch (String × ℤ)
  get_flag = do
    directory ← lift (plat.get_string "config_folder_path")
    index ← lift (plat.get_int "index")
    pure (directory, index)

  unfoldable pub load_files : String → CmdOpts → Launch (Unit {0})
  unfolding load_each load_config config_env_prefix
  load_files directory opts h =
      (load_each directory (plat.range_order h opts.config_map)
          >> load_config (plat.join_path directory log_config_file_name)
              (config_env_prefix log_config_file_name))
        h

  unfoldable pub initialize_configuration : CmdOpts → Launch ℤ
  unfolding get_flag load_files
  initialize_configuration opts = do flag ← get_flag; load_files flag.0 opts; pure flag.1

  unfoldable pub initialize_logger : CmdOpts → Launch (Unit {0})
  initialize_logger opts = do
    ask logger_opened (λ h. plat.logger_answer h opts.logger_prefix_name (plat.log_config h))
    ask console_logger_opened (λ h. plat.console_logger_answer h (plat.log_config h))

  -- The index of the process, which `runE` reads from the command
  unfoldable pub persistent_pre_run : List (CmdOpts → CmdOpts) → Launch ℤ
  unfolding apply_options initialize_configuration initialize_logger
  persistent_pre_run opts = do
    index ← initialize_configuration (apply_options opts)
    initialize_logger (apply_options opts)
    pure index

  -- `runE` of the four commands
  unfoldable pub run_user_rpc : UserConfig → ℤ → Launch (Unit {0})
  unfolding RpcServer.start start_user
  run_user_rpc config index =
      RpcServer.start plat config.discovery config.rpc.prometheus config.rpc.rpc.listen_ip
        config.rpc.rpc.register_ip config.rpc.rpc.ports index config.share.rpc_register_name.user
        (start_user plat config)

  unfoldable pub run_meeting_rpc : MeetingConfig → ℤ → Launch (Unit {0})
  unfolding RpcServer.start start_meeting
  run_meeting_rpc config index =
      RpcServer.start plat config.discovery config.rpc.prometheus config.rpc.rpc.listen_ip
        config.rpc.rpc.register_ip config.rpc.rpc.ports index config.share.rpc_register_name.meeting
        (start_meeting plat config)

  unfoldable pub run_api : ApiConfig → ℤ → Launch (Unit {0})
  unfolding start_api
  run_api config index = start_api plat config index

  unfoldable pub run_admin_api : AdminConfig → ℤ → Launch (Unit {0})
  unfolding start_admin
  run_admin_api config index = start_admin plat config index

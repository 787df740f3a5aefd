-- ===== src/Command/Loading.antt =====
-- Which files a command has read when its pre-run succeeds.
use openmeeting_server.Base.Lists.{All, count}
use openmeeting_server.Base.{◌++◌, String, List, [], ◌∷◌, ◌≡◌, refl, ◌∙◌, ap, arith}
use openmeeting_server.Base.Int.{ℤ}
use openmeeting_server.Result.{Result, ok, err}
use openmeeting_server.Startup.{◌>>=◌, ◌>>◌, pure, lift}
use openmeeting_server.Startup.{done, continue, of_result}
use openmeeting_server.Startup.Platform.{Platform, Event, config_read, config_parsed}
use openmeeting_server.Command.Prefix.{config_env_prefix, log_config_file_name}
use openmeeting_server.Startup.Success.{continue-done}
use openmeeting_server.Command.{
  CmdOpts, apply_each, default_cmd_opts, with_config_map, apply_options, load_config, load_each,
  get_flag, load_files, initialize_configuration, initialize_logger, persistent_pre_run, lift,
}

-- The files that were parsed, each with the prefix of its variables, the latest first
unfoldable pub parsed_files : List Event → List (String × String)
parsed_files [] = []
parsed_files (config_parsed path env_prefix ∷ h) = (path, env_prefix) ∷ parsed_files h
parsed_files (_ ∷ h) = parsed_files h

-- What is added for a list of files, the latest first
unfoldable pub entries :
    (String → String) → List String → List (String × String) → List (String × String)
entries at [] rest = rest
entries at (file ∷ files) rest = entries at files ((at file, config_env_prefix file) ∷ rest)

-- The option leaves the configuration map as it is.
abbrev pub KeepsFiles : (CmdOpts → CmdOpts) → Type 0
KeepsFiles opt = (opts : CmdOpts) → (opt opts).config_map ≡ opts.config_map

module _ (plat : Platform) where
  load_config-parsed :
      (path env_prefix : String) (h : List Event)
      → (load_config plat path env_prefix h).0 ≡ done tt
      → parsed_files (load_config plat path env_prefix h).1 ≡ (path, env_prefix) ∷ parsed_files h
  unfolding load_config parsed_files
  load_config-parsed path env_prefix h e =
      let read =
        continue-done _ (of_result (plat.read_in_config_answer h path))
          (config_read path env_prefix ∷ h) e in
      rw read.1 refl

  load_each-parsed :
      (directory : String) (files : List String) (h : List Event)
      → (load_each plat directory files h).0 ≡ done tt
      → parsed_files (load_each plat directory files h).1
        ≡ entries (plat.join_path directory) files (parsed_files h)
  unfolding load_each entries
  load_each-parsed directory [] h e = refl
  load_each-parsed directory (file ∷ files) h e =
      let path = plat.join_path directory file in
      let env_prefix = config_env_prefix file in
      let one =
        continue-done _ (load_config plat path env_prefix h).0
          (load_config plat path env_prefix h).1 e in
      rw one.1 (
        load_each-parsed directory files (load_config plat path env_prefix h).1 one.2
        ∙ ap (λ x. entries (plat.join_path directory) files x)
            (load_config-parsed path env_prefix h one.1))

  load_files-parsed :
      (directory : String) (opts : CmdOpts) (h : List Event)
      → (load_files plat directory opts h).0 ≡ done tt
      → parsed_files (load_files plat directory opts h).1
        ≡ (plat.join_path directory log_config_file_name, config_env_prefix log_config_file_name)
          ∷ entries (plat.join_path directory) (plat.range_order h opts.config_map) (parsed_files h)
  unfolding load_files
  load_files-parsed directory opts h e =
      let files = plat.range_order h opts.config_map in
      let each = load_each plat directory files h in
      let one = continue-done _ each.0 each.1 e in
      rw one.1 (
        load_config-parsed (plat.join_path directory log_config_file_name)
          (config_env_prefix log_config_file_name) each.1 one.2
        ∙ ap
            (λ x.
              (
                plat.join_path directory log_config_file_name,
                config_env_prefix log_config_file_name,
              )
              ∷ x)
            (load_each-parsed directory files h one.1))

  initialize_logger-parsed :
      (opts : CmdOpts) (h : List Event)
      → parsed_files (initialize_logger plat opts h).1 ≡ parsed_files h
  unfolding initialize_logger parsed_files
  initialize_logger-parsed opts h = grind arith

  flags_of :
      (d : Result String) (i : Result ℤ) (flag : String × ℤ) (h : List Event)
      → (continue (of_result d) h (λ directory. (lift i >>= (λ index. pure (directory, index))))).0
        ≡ done flag
      → (d ≡ ok flag.0) × (i ≡ ok flag.1)
  flags_of (ok d) (ok i) flag h e =
      let same : (d, i) ≡ flag = cc e in (ap (λ x. ok x.0) same, ap (λ x. ok x.1) same)
  flags_of (ok d) (err x) flag h e = absurd (cc e)
  flags_of (err x) i flag h e = absurd (cc e)

  get_flag-done :
      (flag : String × ℤ) (h : List Event)
      → (get_flag plat h).0 ≡ done flag
      → (plat.get_string "config_folder_path" ≡ ok flag.0) × (plat.get_int "index" ≡ ok flag.1)
  unfolding get_flag
  get_flag-done flag h e =
      flags_of (plat.get_string "config_folder_path") (plat.get_int "index") flag h e

  flags_kept :
      (d : Result String) (i : Result ℤ) (h : List Event)
      → (continue {B = String × ℤ}
          (of_result d)
          h
          (λ directory. lift i >>= (λ index. pure {A = String × ℤ} (directory, index)))).1
        ≡ h
  flags_kept (ok d) (ok i) h = refl
  flags_kept (ok d) (err x) h = refl
  flags_kept (err x) i h = refl

  get_flag_kept : (h : List Event) → (get_flag plat h).1 ≡ h
  unfolding get_flag
  get_flag_kept h = flags_kept (plat.get_string "config_folder_path") (plat.get_int "index") h

  abbrev loaded_files : String → CmdOpts → List Event → List (String × String)
  loaded_files directory opts h =
      (plat.join_path directory log_config_file_name, config_env_prefix log_config_file_name)
      ∷ entries (plat.join_path directory) (plat.range_order h opts.config_map) (parsed_files h)

  -- The flags that were read, and the files
  abbrev Configured : CmdOpts → List Event → ℤ → List Event → Type 0
  Configured opts h index k =
      (directory : String) × (plat.get_string "config_folder_path" ≡ ok directory)
      × (plat.get_int "index" ≡ ok index)
      × (parsed_files k ≡ loaded_files directory opts h)

  initialize_configuration-parsed :
      (opts : CmdOpts) (h : List Event) (index : ℤ)
      → (initialize_configuration plat opts h).0 ≡ done index
      → Configured opts h index (initialize_configuration plat opts h).1
  unfolding initialize_configuration
  initialize_configuration-parsed opts h index e =
      let flagged = continue-done _ (get_flag plat h).0 (get_flag plat h).1 e in
      let flag = flagged.0 in
      let (dir, num) = get_flag-done flag h flagged.1 in
      let ended : ((load_files plat flag.0 opts >> pure flag.1) h).0 ≡ done index =
        rw (get_flag_kept h) at flagged.2 in
      let loaded =
        continue-done _ (load_files plat flag.0 opts h).0 (load_files plat flag.0 opts h).1 ended in
      let same : flag.1 ≡ index = cc (loaded.2) in
      (
        flag.0,
        dir,
        num ∙ ap ok same,
        rw (flagged.1, get_flag_kept h, loaded.1) (load_files-parsed flag.0 opts h loaded.1),
      )

  pre_run-parsed :
      (opts : List (CmdOpts → CmdOpts)) (h : List Event) (index : ℤ)
      → (persistent_pre_run plat opts h).0 ≡ done index
      → (directory : String) × (plat.get_string "config_folder_path" ≡ ok directory)
        × (plat.get_int "index" ≡ ok index)
        × (parsed_files (persistent_pre_run plat opts h).1
            ≡ (
              plat.join_path directory log_config_file_name,
              config_env_prefix log_config_file_name,
            )
              ∷ entries
                  (plat.join_path directory)
                  (plat.range_order h (apply_options opts).config_map)
                  (parsed_files h))
  unfolding persistent_pre_run
  pre_run-parsed opts h index e =
      let all_opts = apply_options opts in
      let before = initialize_configuration plat all_opts h in
      let configured = continue-done _ before.0 before.1 e in
      let logged =
        continue-done _ (initialize_logger plat all_opts before.1).0
          (initialize_logger plat all_opts before.1).1 configured.2 in
      let same : configured.0 ≡ index = cc (logged.2) in
      let (directory, dir, num, files) =
        initialize_configuration-parsed all_opts h configured.0 configured.1 in
      (
        directory,
        dir,
        num ∙ ap ok same,
        rw (configured.1, logged.1) (initialize_logger-parsed all_opts before.1 ∙ files),
      )

  apply_each-after :
      (after : List (CmdOpts → CmdOpts)) (opts : CmdOpts)
      → All KeepsFiles after
      → (apply_each after opts).config_map ≡ opts.config_map
  unfolding apply_each
  apply_each-after [] opts keeps = refl
  apply_each-after (opt ∷ after) opts keeps =
      apply_each-after after (opt opts) keeps.1 ∙ keeps.0 opts

  apply_each-last :
      (before after : List (CmdOpts → CmdOpts)) (files : List String) (opts : CmdOpts)
      → All KeepsFiles after
      → (apply_each (before ++ with_config_map files ∷ after) opts).config_map ≡ files
  unfolding apply_each with_config_map
  apply_each-last [] after files opts keeps =
      apply_each-after after (with_config_map files opts) keeps
  apply_each-last (opt ∷ before) after files opts keeps =
      apply_each-last before after files (opt opts) keeps

  -- When the pre-run of a command succeeds, it has parsed, in the folder of the flag and each with
  -- the prefix of its environment variables, each file of the last configuration map among the
  -- options exactly once, in some order, and then the one of the log, and no other, as long as a
  -- range over a map visits each key once.
  pub persistent_pre_run-parsed :
      (before after : List (CmdOpts → CmdOpts)) (files : List String) (h : List Event) (index : ℤ)
      → All KeepsFiles after
      → ((g : List Event) (x : String) → count x (plat.range_order g files) ≡ count x files)
      → (persistent_pre_run plat (before ++ with_config_map files ∷ after) h).0 ≡ done index
      → (directory : String) × (plat.get_string "config_folder_path" ≡ ok directory)
        × (plat.get_int "index" ≡ ok index)
        × (ordered : List String) × ((x : String) → count x ordered ≡ count x files)
        × (parsed_files (persistent_pre_run plat (before ++ with_config_map files ∷ after) h).1
            ≡ (
              plat.join_path directory log_config_file_name,
              config_env_prefix log_config_file_name,
            )
              ∷ entries (plat.join_path directory) ordered (parsed_files h))
  unfolding apply_options
  persistent_pre_run-parsed before after files h index keeps ranges e =
      let opts = before ++ with_config_map files ∷ after in
      let (directory, dir, num, parsed) = pre_run-parsed opts h index e in
      (
        directory,
        dir,
        num,
        plat.range_order h files,
        ranges h,
        rw (apply_each-last before after files default_cmd_opts keeps) at parsed,
      )

-- ===== src/ComponentCheck.antt =====
-- tools/check-component/main.go, performChecks: the components are asked until each has answered once,
-- or the rounds are over. The map of the checks is a list of names, and a round ranges over it in the
-- order that the environment gives.
pub mod Rounds
pub mod Steps
pub mod Answers
use openmeeting_server.Base.{
  String, List, [], ◌∷◌, Bool, true, false, ℕ, zero, suc, ◌==◌, if◌then◌else◌,
}
use openmeeting_server.Base.Lists.{contains}
use openmeeting_server.Config
use openmeeting_server.Startup.{Launch, ◌>>◌}
use openmeeting_server.Startup.Platform.{Platform}
use openmeeting_server.Command.{load_config}
use openmeeting_server.Command.Prefix.{
  config_env_prefix, mongodb_config_file_name, redis_config_file_name, discovery_config_filename,
}

-- One call of a check: its name, and whether the component answered
pub record Attempt : Type 0 where
  pub name : String
  pub passed : Bool

-- The answers of the components to the next attempt, and the order in which a map is ranged over, by
-- the attempts so far, the latest first
pub record Components : Type 0 where
  pub answers : List Attempt → String → Bool
  pub range_order : List Attempt → List String → List String

-- `checksDone` by its names, `allSuccess`, and the attempts so far
pub record Checking : Type 0 where
  pub checks_done : List String
  pub all_success : Bool
  pub attempts : List Attempt

-- `CheckEtcd` is among the checks if the discovery service is etcd.
unfoldable pub checks : Config.Discovery → List String
checks discovery =
    if discovery.enable == "etcd" then "Mongo" ∷ "Redis" ∷ "Etcd" ∷ [] else "Mongo" ∷ "Redis" ∷ []

abbrev pub answered : String → Bool → Checking → Checking
answered name true s = record s {
  checks_done = name ∷ s.checks_done;
  attempts = record { name = name; passed = true } ∷ s.attempts;
}
answered name false s = record s {
  all_success = false;
  attempts = record { name = name; passed = false } ∷ s.attempts;
}

module _ (c : Components) where
  -- One step of the inner loop
  unfoldable pub check_one : String → Checking → Checking
  unfolding contains
  check_one name s =
      if contains name s.checks_done then s else answered name (c.answers s.attempts name) s

  unfoldable pub check_each : List String → Checking → Checking
  unfolding check_one
  check_each [] s = s
  check_each (name ∷ names) s = check_each names (check_one name s)

  -- One round of the outer loop
  unfoldable pub round : List String → Checking → Checking
  unfolding check_each
  round names s = check_each (c.range_order s.attempts names) (record s { all_success = true })

  -- The rounds that are left: whether the checks passed, and the state
  unfoldable pub rounds : List String → ℕ → Checking → Bool × Checking
  unfolding round
  rounds names zero s = (false, s)
  rounds names (suc left) s =
      let next = round names s in
      let more = rounds names left next in if next.all_success then (true, next) else more

  -- `performChecks`, true for a nil error
  unfoldable pub perform_checks : Config.Discovery → ℕ → Bool × Checking
  unfolding rounds checks
  perform_checks discovery max_retry =
      rounds (checks discovery) max_retry
        (record { checks_done = []; all_success = true; attempts = [] })

module _ (plat : Platform) where
  -- `initConfig`: the three files, in this order
  unfoldable pub init_config : String → Launch (Unit {0})
  unfolding load_config config_env_prefix
  init_config config_dir = do
    load_config plat (plat.join_path config_dir mongodb_config_file_name)
        (config_env_prefix mongodb_config_file_name)
    load_config plat (plat.join_path config_dir redis_config_file_name)
        (config_env_prefix redis_config_file_name)
    load_config plat (plat.join_path config_dir discovery_config_filename)
        (config_env_prefix discovery_config_filename)

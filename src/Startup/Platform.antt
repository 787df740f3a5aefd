-- ===== src/Startup/Platform.antt =====
-- What a process that starts asks of the libraries, the operating system and the other services.
use openmeeting_server.Base.{String, List, [], ◌∷◌, Bool, ◌==◌, false, if◌then◌else◌, true}
use openmeeting_server.Base.Int.{ℤ}
use openmeeting_server.Config
use openmeeting_server.Result.{Result, Err}

-- What has to be given back: a TCP listener by its address, and the client of the discovery service.
pub data Resource : Type 0 where
  listener : String → Resource
  discovery_client : Resource

pub data Event : Type 0 where
  opened refused closed : Resource → Event
  -- a file of the configuration is read and parsed: its path and the prefix of its variables
  config_read config_parsed : String → String → Event
  -- the two loggers
  logger_opened console_logger_opened : Event
  -- the storage of a service
  mongo_connected redis_connected : Event
  collection_prepared : String → Event
  -- the connection to another service, by its name
  connected : String → Event
  -- the service is entered at the gRPC server, and the gRPC server at the discovery service
  service_entered : Event
  registered : String → String → ℤ → Event
  metrics_registered grpc_server_made : Event
  -- an HTTP server on an address: it has a router, or a nil one
  http_started : String → Bool → Event
  -- from the signal to the end
  sigterm_noted grpc_stopped : Event
  http_shutdown : String → Event

-- What the goroutines of a server do before the process wakes: the metrics server has begun to
-- listen, it has failed, or the server itself has failed.
pub data Progress : Type 0 where
  metrics_up : Progress
  metrics_failed serve_failed : Err → Progress

-- What the process wakes by
pub data Wake : Type 0 where
  sigterm net_done : Wake

pub record Platform : Type 0 where
  -- `datautil.GetElemByIndex`
  pub elem_by_index : List ℤ → ℤ → Result ℤ
  -- `network.GetListenIP` and `net.JoinHostPort` of a port in decimal digits
  pub listen_ip : String → String
  pub join_host_port : String → ℤ → String
  -- `network.GetRpcRegisterIP`
  pub rpc_register_ip : String → Result String
  -- `net.Listen`, and `etcd.NewSvcDiscoveryRegistry`
  pub listen_answer : List Event → String → Result (Unit {0})
  pub etcd_answer : List Event → Config.Etcd → Result (Unit {0})
  -- `GetConn` and `Register` of the discovery client
  pub conn_answer : List Event → String → Result (Unit {0})
  pub register_answer : List Event → String → ℤ → Result (Unit {0})
  -- `MustRegister` finds nothing to panic about.
  pub metrics_accepted : List Event → Bool
  -- the clients of the storage, and the collections with their indexes
  pub mongo_answer : List Event → Config.MongoClient → Result (Unit {0})
  pub redis_answer : List Event → Config.RedisClient → Result (Unit {0})
  pub collection_answer : List Event → String → Result (Unit {0})
  -- what happens from the start of the goroutines until the process wakes
  pub background : List Event → List Progress × Wake
  -- `GracefulStop` ends within its fifteen seconds.
  pub stops_in_time : List Event → Bool
  pub shutdown_answer : List Event → String → Result (Unit {0})
  -- viper: `ReadInConfig` and `Unmarshal`
  pub read_in_config_answer : List Event → String → Result (Unit {0})
  pub unmarshal_answer : List Event → String → Result (Unit {0})
  -- `filepath.Join` of two parts
  pub join_path : String → String → String
  -- the order in which a map with these keys is ranged over
  pub range_order : List Event → List String → List String
  -- the flags of the command line, as cobra reads them
  pub get_string : String → Result String
  pub get_int : String → Result ℤ
  -- the configuration of the loggers that was read
  pub log_config : List Event → Config.Log
  -- `log.InitFromConfig` and `log.InitConsoleLogger`
  pub logger_answer : List Event → String → Config.Log → Result (Unit {0})
  pub console_logger_answer : List Event → Config.Log → Result (Unit {0})

abbrev pub is_same : Resource → Resource → Bool
is_same (listener a) (listener b) = a == b
is_same discovery_client discovery_client = true
is_same _ _ = false

-- The last resource that is still open is given back.
abbrev pub close_top : Resource → List Resource → List Resource
close_top r [] = []
close_top r (s ∷ rest) = if is_same r s then rest else s ∷ rest

-- What is open after the steps, the latest first.
unfoldable pub open_resources : List Event → List Resource
open_resources [] = []
open_resources (opened r ∷ h) = r ∷ open_resources h
open_resources (closed r ∷ h) = close_top r (open_resources h)
open_resources (_ ∷ h) = open_resources h

-- The registrations at the discovery service
pub record Registration : Type 0 where
  pub name : String
  pub ip : String
  pub port : ℤ

unfoldable pub registrations : List Event → List Registration
registrations [] = []
registrations (registered name ip port ∷ h) =
    record { name = name; ip = ip; port = port } ∷ registrations h
registrations (_ ∷ h) = registrations h

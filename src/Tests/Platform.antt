-- ===== src/Tests/Platform.antt =====
-- A concrete platform, on which everything is there, and the configuration of the processes.
use Prim.Native.String.{◌++◌ as str_append}
use openmeeting_server.Base.{List, [], ◌∷◌, true, false}
use openmeeting_server.Base.Int.{ℤ, pos}
use openmeeting_server.Config
use openmeeting_server.Result.{Result, ok, err, args, plain}
use openmeeting_server.Startup.Platform.{Platform, metrics_up, sigterm}
use openmeeting_server.Services.{MeetingConfig, UserConfig}
use openmeeting_server.ApiServer.{AdminConfig}

abbrev pub first_port : List ℤ → Result ℤ
first_port [] = err args
first_port (p ∷ ports) = ok p

abbrev pub log : Config.Log
log = record {
  storage_location = "/logs";
  rotation_time = 24;
  remain_rotation_count = 2;
  remain_log_level = pos 6;
  is_stdout = true;
  is_json = false;
  is_simplify = false;
  with_stack = false;
}

-- Everything is there, and the signal comes once the metrics server listens.
abbrev pub platform : Platform
platform = record {
  elem_by_index = λ ports index. first_port ports;
  listen_ip = λ ip. ip;
  join_host_port = λ ip port. ip;
  rpc_register_ip = λ ip. ok ip;
  listen_answer = λ h addr. ok tt;
  etcd_answer = λ h etcd. ok tt;
  conn_answer = λ h name. ok tt;
  register_answer = λ h name port. ok tt;
  metrics_accepted = λ h. true;
  mongo_answer = λ h mongo. ok tt;
  redis_answer = λ h redis. ok tt;
  collection_answer = λ h name. ok tt;
  background = λ h. (metrics_up ∷ [], sigterm);
  stops_in_time = λ h. true;
  shutdown_answer = λ h addr. ok tt;
  read_in_config_answer = λ h path. ok tt;
  unmarshal_answer = λ h path. ok tt;
  join_path = λ directory file. str_append directory (str_append "/" file);
  range_order = λ h files. files;
  get_string = λ name. ok "/config";
  get_int = λ name. ok (pos 0);
  log_config = λ h. log;
  logger_answer = λ h name config. ok tt;
  console_logger_answer = λ h config. ok tt;
}

-- The same, but for MongoDB
abbrev pub no_mongo : Platform
no_mongo = record platform { mongo_answer = λ h mongo. err plain }

abbrev pub discovery : Config.Discovery
discovery = record {
  enable = "etcd";
  etcd = record {
    root_directory = "openmeeting";
    address = "localhost:2379" ∷ [];
    username = "";
    password = "";
  };
}

abbrev pub share : Config.Share
share = record { rpc_register_name = record { user = "user"; meeting = "meeting" } }

abbrev pub mongo : Config.Mongo
mongo = record {
  uri = "";
  address = "localhost:27017" ∷ [];
  database = "openmeeting";
  username = "";
  password = "";
  max_pool_size = pos 100;
  max_retry = pos 10;
}

abbrev pub redis : Config.Redis
redis = record {
  address = "localhost:6379" ∷ [];
  username = "";
  password = "";
  enable_pipeline = false;
  cluster_mode = false;
  db = pos 0;
  max_retry = pos 10;
}

abbrev pub metrics : Config.Prometheus
metrics = record { enable = true; ports = pos 20100 ∷ [] }

abbrev pub address : Config.RpcAddress
address = record { register_ip = "10.0.0.1"; listen_ip = "0.0.0.0"; ports = pos 10100 ∷ [] }

abbrev pub meeting_config : MeetingConfig
meeting_config = record {
  rpc = record { rpc = address; prometheus = metrics };
  redis = redis;
  mongo = mongo;
  discovery = discovery;
  share = share;
  rtc = record { url = []; api_key = ""; api_secret = ""; inner_url = "" };
}

abbrev pub user_config : UserConfig
user_config = record {
  rpc = record {
    rpc = address;
    token = record { secret = "key"; expires = pos 7 };
    prometheus = metrics;
  };
  redis = redis;
  mongo = mongo;
  discovery = discovery;
  share = share;
}

abbrev pub admin_config : AdminConfig
admin_config = record {
  admin_api = record {
    secret = "key";
    expire = pos 7;
    api = record { listen_ip = "0.0.0.0"; ports = pos 11102 ∷ [] };
    prometheus = record { enable = false; ports = pos 20113 ∷ []; grafana_url = "" };
  };
  discovery = discovery;
  share = share;
  redis = redis;
  mongo = mongo;
}

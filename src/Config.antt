-- ===== src/Config.antt =====
-- pkg/common/config/config.go: the configuration of the processes, and what is handed to the clients
-- of MongoDB and Redis. A Go int is an integer, and its range is not used.
use openmeeting_server.Base.{ℕ, String, List, Bool}
use openmeeting_server.Base.Int.{ℤ}

pub record Log : Type 0 where
  pub storage_location : String
  pub rotation_time : ℕ
  pub remain_rotation_count : ℕ
  pub remain_log_level : ℤ
  pub is_stdout : Bool
  pub is_json : Bool
  pub is_simplify : Bool
  pub with_stack : Bool

pub record Mongo : Type 0 where
  pub uri : String
  pub address : List String
  pub database : String
  pub username : String
  pub password : String
  pub max_pool_size : ℤ
  pub max_retry : ℤ

pub record RpcRegisterName : Type 0 where
  pub user : String
  pub meeting : String

pub record Share : Type 0 where
  pub rpc_register_name : RpcRegisterName

-- The address of an HTTP server of the API
pub record Endpoint : Type 0 where
  pub listen_ip : String
  pub ports : List ℤ

pub record GrafanaPrometheus : Type 0 where
  pub enable : Bool
  pub ports : List ℤ
  pub grafana_url : String

pub record Api : Type 0 where
  pub secret : String
  pub expire : ℤ
  pub api : Endpoint
  pub prometheus : GrafanaPrometheus

pub record Prometheus : Type 0 where
  pub enable : Bool
  pub ports : List ℤ

pub record RpcAddress : Type 0 where
  pub register_ip : String
  pub listen_ip : String
  pub ports : List ℤ

pub record TokenSettings : Type 0 where
  pub secret : String
  pub expires : ℤ

pub record User : Type 0 where
  pub rpc : RpcAddress
  pub token : TokenSettings
  pub prometheus : Prometheus

pub record Meeting : Type 0 where
  pub rpc : RpcAddress
  pub prometheus : Prometheus

pub record Rtc : Type 0 where
  pub url : List String
  pub api_key : String
  pub api_secret : String
  pub inner_url : String

pub record Redis : Type 0 where
  pub address : List String
  pub username : String
  pub password : String
  pub enable_pipeline : Bool
  pub cluster_mode : Bool
  pub db : ℤ
  pub max_retry : ℤ

pub record Etcd : Type 0 where
  pub root_directory : String
  pub address : List String
  pub username : String
  pub password : String

pub record Discovery : Type 0 where
  pub enable : String
  pub etcd : Etcd

-- `mongoutil.Config` and `redisutil.Config`, as far as they are filled
pub record MongoClient : Type 0 where
  pub uri : String
  pub address : List String
  pub database : String
  pub username : String
  pub password : String
  pub max_pool_size : ℤ
  pub max_retry : ℤ

pub record RedisClient : Type 0 where
  pub cluster_mode : Bool
  pub address : List String
  pub username : String
  pub password : String
  pub db : ℤ
  pub max_retry : ℤ

unfoldable pub build_mongo : Mongo → MongoClient
build_mongo m = record {
  uri = m.uri;
  address = m.address;
  database = m.database;
  username = m.username;
  password = m.password;
  max_pool_size = m.max_pool_size;
  max_retry = m.max_retry;
}

-- `EnablePipeline` is not handed on.
unfoldable pub build_redis : Redis → RedisClient
build_redis r = record {
  cluster_mode = r.cluster_mode;
  address = r.address;
  username = r.username;
  password = r.password;
  db = r.db;
  max_retry = r.max_retry;
}

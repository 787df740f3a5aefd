-- ===== src/Storage/Meta.antt =====
-- `metaCacheRedis` of pkg/common/storage/cache/redis/meta_cache.go: the keys that a cache is to delete.
-- The client of rockscache is the environment; of the raw client only whether it is set is kept.
use openmeeting_server.Base.{ℕ, String, List, [], ◌++◌, Bool, false, ◌≡◌, refl}

-- How often `ExecDel` tries to delete one key.
abbrev pub max_retry_times : ℕ
max_retry_times = 5

-- The pause after an error, in milliseconds
abbrev pub retry_interval : ℕ
retry_interval = 100

pub record MetaCache : Type 0 where
  pub keys : List String
  pub max_retry_times : ℕ
  pub retry_interval : ℕ
  pub redis_client : Bool

unfoldable pub new_meta_cache_redis : List String → MetaCache
new_meta_cache_redis keys = record {
  keys = keys;
  max_retry_times = max_retry_times;
  retry_interval = retry_interval;
  redis_client = false;
}

-- The copy has keys of its own.
unfoldable pub copy : MetaCache → MetaCache
copy m = record {
  keys = m.keys;
  max_retry_times = m.max_retry_times;
  retry_interval = m.retry_interval;
  redis_client = m.redis_client;
}

unfoldable pub set_raw_redis_client : Bool → MetaCache → MetaCache
set_raw_redis_client client m = record m { redis_client = client }

unfoldable pub add_keys : List String → MetaCache → MetaCache
add_keys keys m = record m { keys = m.keys ++ keys }

unfoldable pub clear_keys : MetaCache → MetaCache
clear_keys m = record m { keys = [] }

unfoldable pub get_pre_del_keys : MetaCache → List String
get_pre_del_keys m = m.keys

-- What is added after the keys were cleared is all that is left to delete.
get_pre_del_keys-clear_keys :
    (m : MetaCache) (keys : List String) → get_pre_del_keys (add_keys keys (clear_keys m)) ≡ keys
unfolding get_pre_del_keys add_keys clear_keys
get_pre_del_keys-clear_keys m keys = refl

-- Keys that are added to a copy leave those of the cache in front.
get_pre_del_keys-copy :
    (m : MetaCache) (keys : List String)
    → get_pre_del_keys (add_keys keys (copy m)) ≡ get_pre_del_keys m ++ keys
unfolding get_pre_del_keys add_keys copy
get_pre_del_keys-copy m keys = refl

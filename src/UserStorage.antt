-- ===== src/UserStorage.antt =====
-- The storage of users and of their tokens: pkg/common/storage/controller/user.go over the cache of
-- pkg/common/storage/cache/redis/user.go and the collection of pkg/common/storage/database/mgo/user.go.
-- A call that sets a key says when it expires; a key that has expired answers as one that is not there.
-- A user that is read with success is a record and never nil, so that `GetByAccount` has no nil to test:
-- a lookup answers a user or an error, and only users are written to the cache.
pub mod Order
pub mod Ids
use openmeeting_server.Base.{ℕ, ◌*◌, String, List, [], ◌∷◌, map, eqb, if◌then◌else◌}
use openmeeting_server.Base.Lists.{length}
use openmeeting_server.Decimal.{sprintf_zero_padded}
use openmeeting_server.Model.{User}
use openmeeting_server.Result.{Result, ok, err, record_not_found}
use openmeeting_server.Env
use openmeeting_server.Env.{◌>>=◌, ◌>>◌, Env, Exec, pure, raise, ask, attempt}
use openmeeting_server.Storage.Key.{get_user_info_key, get_user_token_key, generate_user_id_key}
use openmeeting_server.Storage.Meta.{MetaCache, new_meta_cache_redis, copy, add_keys}
use openmeeting_server.Storage.Cache.{get_cache, exec_del}

-- Twelve hours, in seconds
abbrev pub user_expire_time : ℕ
user_expire_time = 60 * 60 * 12

-- `NewUser` of the cache: the `Meta` of a new cache. What is set in `mc` is lost with it.
unfoldable pub new_user : MetaCache
unfolding new_meta_cache_redis
new_user = new_meta_cache_redis []

-- `NewCache` of the cache of users, by its `Meta`
new_cache : MetaCache → MetaCache
unfolding copy
new_cache m = copy m

unfoldable pub del_users_info : MetaCache → List String → MetaCache
unfolding get_user_info_key new_cache add_keys
del_users_info m user_ids = add_keys (map get_user_info_key user_ids) (new_cache m)

module _ (env : Env) where
  -- `UserMgo`
  unfoldable pub create_user_mgo : List User → Exec (Unit {0})
  create_user_mgo users = ask (Env.insert_users users) (λ h. env.insert_users_answer h users)

  unfoldable pub take_user_mgo : String → Exec User
  take_user_mgo user_id = ask (Env.find_user user_id) (λ h. env.find_user_answer h user_id)

  take_by_account_mgo : String → Exec User
  take_by_account_mgo account =
      ask (Env.find_user_by_account account) (λ h. env.find_user_by_account_answer h account)

  -- After one key: a record that is missing is skipped, another error ends the loop.
  unfoldable pub on_val : {T : Type 0} → Result T → Exec (List T) → Exec (List T)
  on_val (ok v) rest = do vs ← rest; pure (v ∷ vs)
  on_val (err e) rest = if env.has_not_found_code e then rest else raise e

  -- The loop of `batchGetCache2`
  unfoldable pub batch_get_cache2 :
      {T : Type 0}
      → (T → Result String)
      → (String → Result T)
      → (String → String)
      → (String → Exec T)
      → List String
      → Exec (List T)
  unfolding get_cache on_val
  batch_get_cache2 marshal unmarshal key_fn fns [] = pure []
  batch_get_cache2 marshal unmarshal key_fn fns (key ∷ keys) = do
    val ← attempt (get_cache env marshal unmarshal (key_fn key) (fns key))
    on_val val (batch_get_cache2 marshal unmarshal key_fn fns keys)

  -- The cache of users
  unfoldable pub get_users_info : List String → Exec (List User)
  unfolding batch_get_cache2 get_user_info_key take_user_mgo
  get_users_info user_ids =
      batch_get_cache2 env.marshal_user env.unmarshal_user get_user_info_key take_user_mgo user_ids

  -- `GetUserByAccount`, with the prefix of user ids
  unfoldable pub get_user_by_account : String → Exec User
  unfolding get_cache get_user_info_key take_by_account_mgo
  get_user_by_account account =
      get_cache env env.marshal_user env.unmarshal_user (get_user_info_key account)
        (take_by_account_mgo account)

  -- The tokens and the counter in Redis
  unfoldable pub cache_user_token : String → String → Exec (Unit {0})
  unfolding get_user_token_key
  cache_user_token user_id user_token =
      let key = get_user_token_key user_id in
      ask (Env.set_key key user_token user_expire_time) (λ h. env.set_key_answer h key user_token)

  unfoldable pub cached_user_token : String → Exec String
  unfolding get_user_token_key
  cached_user_token user_id =
      let key = get_user_token_key user_id in
      ask (Env.read_key key) (λ h. env.read_key_answer h key)

  unfoldable pub clear_cached_user_token : String → Exec (Unit {0})
  unfolding get_user_token_key
  clear_cached_user_token user_id =
      let key = get_user_token_key user_id in
      ask (Env.remove_key key) (λ h. env.remove_key_answer h key)

  unfoldable pub next_user_id : Exec String
  next_user_id = do
    index ← ask (Env.incr generate_user_id_key) (λ h. env.incr_answer h generate_user_id_key)
    pure (sprintf_zero_padded 8 index)

  -- `UserStorageManager`
  unfoldable pub find_with_error : List String → Exec (List User)
  unfolding get_users_info
  find_with_error user_ids = do
    users ← get_users_info user_ids
    if eqb (length users) (length user_ids) then pure users else raise record_not_found

  unfoldable pub create_users : List User → Exec (Unit {0})
  unfolding create_user_mgo new_user del_users_info exec_del
  create_users users = env.transaction (do
    create_user_mgo users
    exec_del env (del_users_info new_user (map (λ e. e.user_id) users)))

  unfoldable pub get_by_account : String → Exec User
  unfolding get_user_by_account
  get_by_account account = get_user_by_account account

  unfoldable pub store_token : String → String → Exec (Unit {0})
  unfolding cache_user_token
  store_token user_id user_token = cache_user_token user_id user_token

  unfoldable pub get_token : String → Exec String
  unfolding cached_user_token
  get_token user_id = cached_user_token user_id

  unfoldable pub clear_user_token : String → Exec (Unit {0})
  unfolding clear_cached_user_token
  clear_user_token user_id = clear_cached_user_token user_id

  unfoldable pub generate_user_id : Exec String
  unfolding next_user_id
  generate_user_id = next_user_id

-- ===== src/Storage.antt =====
-- The storage of meetings: pkg/common/storage/controller/meeting.go over the cache of
-- pkg/common/storage/cache/redis and the collection of pkg/common/storage/database/mgo.
pub mod Invalidation
pub mod Ids
pub mod Key
pub mod Meta
pub mod Cache
use openmeeting_server.Base.{String, List, [], ◌∷◌, Option, none, some, map, ◌==◌, if◌then◌else◌}
use openmeeting_server.Decimal.{sprintf_zero_padded}
use openmeeting_server.Model.{MeetingInfo}
use openmeeting_server.Env
use openmeeting_server.Env.{◌>>=◌, ◌>>◌, Env, Change, Exec, pure, ask}
use Key.{get_meeting_info_key, generate_meeting_id_key}
use Meta.{MetaCache, new_meta_cache_redis, copy, add_keys}
use Cache.{get_cache, exec_del}

-- The filter asks for the creator only if one is given.
creator_filter : String → Option String
creator_filter user_id = if user_id == "" then none else some user_id

-- `NewMeeting` of the cache: the `Meta` of a new cache. What is set in `mc` is lost with it.
unfoldable pub new_meeting : MetaCache
unfolding new_meta_cache_redis
new_meeting = new_meta_cache_redis []

-- `NewCache` of the cache of meetings, by its `Meta`
new_cache : MetaCache → MetaCache
unfolding copy
new_cache m = copy m

unfoldable pub del_meeting : MetaCache → List String → MetaCache
unfolding get_meeting_info_key new_cache add_keys
del_meeting m meeting_ids = add_keys (map get_meeting_info_key meeting_ids) (new_cache m)

module _ (env : Env) where
  -- `MeetingMgo`
  create_mgo : List MeetingInfo → Exec (Unit {0})
  create_mgo meetings =
      ask (Env.insert_meetings meetings) (λ h. env.insert_meetings_answer h meetings)

  take_mgo : String → Exec MeetingInfo
  take_mgo meeting_id =
      ask (Env.find_meeting meeting_id) (λ h. env.find_meeting_answer h meeting_id)

  update_mgo : String → List Change → Exec (Unit {0})
  update_mgo meeting_id [] = pure tt
  update_mgo meeting_id (c ∷ cs) =
      ask (Env.update_meeting meeting_id (c ∷ cs))
        (λ h. env.update_meeting_answer h meeting_id (c ∷ cs))

  delete_mgo : String → Exec (Unit {0})
  delete_mgo meeting_id =
      ask (Env.delete_meeting meeting_id) (λ h. env.delete_meeting_answer h meeting_id)

  unfoldable pub find_by_status : List String → String → Exec (List MeetingInfo)
  unfolding creator_filter
  find_by_status status user_id =
      let creator = creator_filter user_id in
      ask (Env.find_meetings status creator) (λ h. env.find_meetings_answer h status creator)

  -- `MeetingStorageManager`
  unfoldable pub take_with_error : String → Exec MeetingInfo
  unfolding take_mgo get_meeting_info_key get_cache
  take_with_error meeting_id =
      get_cache env env.marshal_meeting env.unmarshal_meeting (get_meeting_info_key meeting_id)
        (take_mgo meeting_id)

  unfoldable pub create : List MeetingInfo → Exec (Unit {0})
  unfolding create_mgo new_meeting del_meeting exec_del
  create meetings = env.transaction (do
    create_mgo meetings
    exec_del env (del_meeting new_meeting (map (λ e. e.meeting_id) meetings)))

  unfoldable pub update : String → List Change → Exec (Unit {0})
  unfolding update_mgo new_meeting del_meeting exec_del
  update meeting_id update_data = env.transaction (do
    update_mgo meeting_id update_data
    exec_del env (del_meeting new_meeting (meeting_id ∷ [])))

  unfoldable pub delete : String → Exec (Unit {0})
  unfolding delete_mgo new_meeting del_meeting exec_del
  delete meeting_id =
      env.transaction
        (do delete_mgo meeting_id; exec_del env (del_meeting new_meeting (meeting_id ∷ [])))

  unfoldable pub generate_meeting_id : Exec String
  generate_meeting_id = do
    index ← ask (Env.incr generate_meeting_id_key) (λ h. env.incr_answer h generate_meeting_id_key)
    pure (sprintf_zero_padded 9 index)

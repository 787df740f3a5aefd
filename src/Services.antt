-- ===== src/Services.antt =====
-- The wiring of the services when they start: internal/rpc/meeting/init.go, the start of
-- internal/rpc/user/user.go, and the clients of pkg/user/meeting.go and pkg/rpcclient/meeting.go. The
-- records that are only filled with what was made are left out.
pub mod Starting
use openmeeting_server.Base.{String, List, ◌∷◌}
use openmeeting_server.Config
use openmeeting_server.Config.{build_mongo, build_redis}
use openmeeting_server.Result.{Result, ok, err}
use openmeeting_server.Startup.{Launch, Outcome, done, exited, note, ask, ◌>>◌}
use openmeeting_server.Startup.Platform.{
  Platform, Event, connected, mongo_connected, redis_connected, collection_prepared,
  service_entered,
}

-- `Config` of internal/rpc/meeting
pub record MeetingConfig : Type 0 where
  pub rpc : Config.Meeting
  pub redis : Config.Redis
  pub mongo : Config.Mongo
  pub discovery : Config.Discovery
  pub share : Config.Share
  pub rtc : Config.Rtc

-- `Config` of internal/rpc/user
pub record UserConfig : Type 0 where
  pub rpc : Config.User
  pub redis : Config.Redis
  pub mongo : Config.Mongo
  pub discovery : Config.Discovery
  pub share : Config.Share

-- `program.ExitWithError`, if there is no connection
abbrev pub connection : String → Result (Unit {0}) → List Event → Outcome (Unit {0}) × List Event
connection name (ok u) h = (done u, connected name ∷ h)
connection name (err e) h = (exited, h)

module _ (plat : Platform) where
  unfoldable pub new_meeting_user_client : String → Launch (Unit {0})
  new_meeting_user_client name h = connection name (plat.conn_answer h name) h

  unfoldable pub new_meeting_client : String → Launch (Unit {0})
  new_meeting_client name h = connection name (plat.conn_answer h name) h

  unfoldable pub connect_mongo : Config.Mongo → Launch (Unit {0})
  unfolding build_mongo
  connect_mongo mongo = ask mongo_connected (λ h. plat.mongo_answer h (build_mongo mongo))

  unfoldable pub connect_redis : Config.Redis → Launch (Unit {0})
  unfolding build_redis
  connect_redis redis = ask redis_connected (λ h. plat.redis_answer h (build_redis redis))

  -- The collection with its unique index: `NewUserMongo` and `NewMeetingMongo`
  unfoldable pub prepare_collection : String → Launch (Unit {0})
  prepare_collection name = ask (collection_prepared name) (λ h. plat.collection_answer h name)

  -- `Start` of the meeting service
  unfoldable pub start_meeting : MeetingConfig → Launch (Unit {0})
  unfolding connect_mongo connect_redis prepare_collection new_meeting_user_client
  start_meeting config = do
    connect_mongo config.mongo
    connect_redis config.redis
    prepare_collection "meeting"
    new_meeting_user_client config.share.rpc_register_name.user
    note service_entered

  -- `Start` of the user service
  unfoldable pub start_user : UserConfig → Launch (Unit {0})
  unfolding connect_mongo connect_redis prepare_collection new_meeting_client
  start_user config = do
    connect_mongo config.mongo
    connect_redis config.redis
    prepare_collection "user"
    new_meeting_client config.share.rpc_register_name.meeting
    note service_entered

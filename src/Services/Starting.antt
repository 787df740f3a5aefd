-- ===== src/Services/Starting.antt =====
-- The start of a service opens nothing that has to be given back, and registers nothing itself.
use openmeeting_server.Config.{build_mongo, build_redis}
use openmeeting_server.Base.{String, List, ◌∷◌, refl, ◌≡◌}
use openmeeting_server.Config
use openmeeting_server.Result.{Result, ok, err}
use openmeeting_server.Startup.{Launch, note, ask, ◌>>=◌}
use openmeeting_server.Startup.Platform.{Platform, Event, open_resources, registrations}
use openmeeting_server.Startup.Balance.{IsBalanced, IsBalanced-bind}
use openmeeting_server.Startup.Registering.{RegistersNone, RegistersNone-bind}
use openmeeting_server.Services.{
  MeetingConfig, UserConfig, connection, new_meeting_user_client, new_meeting_client, connect_mongo,
  connect_redis, prepare_collection, start_meeting, start_user, service_entered, mongo_connected,
  redis_connected, collection_prepared,
}

-- Neither opens, closes nor registers
pub record IsQuiet {A : Type 0} (m : Launch A) : Type 0 where
  pub balanced : IsBalanced m
  pub silent : RegistersNone m

IsQuiet-bind :
    {A B : Type 0} {m : Launch A} {f : A → Launch B}
    → IsQuiet m
    → ((a : A) → IsQuiet (f a))
    → IsQuiet (m >>= f)
IsQuiet-bind hm hf = record {
  balanced = IsBalanced-bind hm.balanced (λ a. (hf a).balanced);
  silent = RegistersNone-bind hm.silent (λ a. (hf a).silent);
}

asked-IsQuiet :
    {A : Type 0} (e : Event) (answer : List Event → Result A)
    → ((h : List Event) → open_resources (e ∷ h) ≡ open_resources h)
    → ((h : List Event) → registrations (e ∷ h) ≡ registrations h)
    → IsQuiet (ask e answer)
asked-IsQuiet e answer plain silent = record {
  balanced = record { at = λ h ne. plain h };
  silent = record { at = silent };
}

module _ (plat : Platform) where
  client-IsQuiet : (name : String) → IsQuiet (new_meeting_client plat name)
  unfolding new_meeting_client open_resources registrations
  client-IsQuiet name = record {
    balanced = record {
      at = λ h ne.
          elim (plat.conn_answer h name)
            as (λ r. open_resources (connection name r h).1 ≡ open_resources h) [
              | ok u ↦ refl
              | err e ↦ refl
            ];
    };
    silent = record {
      at = λ h.
          elim (plat.conn_answer h name)
            as (λ r. registrations (connection name r h).1 ≡ registrations h) [
              | ok u ↦ refl
              | err e ↦ refl
            ];
    };
  }

  user_client-IsQuiet : (name : String) → IsQuiet (new_meeting_user_client plat name)
  unfolding new_meeting_client new_meeting_user_client
  user_client-IsQuiet name = client-IsQuiet name

  connect_mongo-IsQuiet : (mongo : Config.Mongo) → IsQuiet (connect_mongo plat mongo)
  unfolding connect_mongo open_resources registrations
  connect_mongo-IsQuiet mongo =
      asked-IsQuiet mongo_connected (λ h. plat.mongo_answer h (build_mongo mongo)) (λ h. refl)
        (λ h. refl)

  connect_redis-IsQuiet : (redis : Config.Redis) → IsQuiet (connect_redis plat redis)
  unfolding connect_redis open_resources registrations
  connect_redis-IsQuiet redis =
      asked-IsQuiet redis_connected (λ h. plat.redis_answer h (build_redis redis)) (λ h. refl)
        (λ h. refl)

  prepare_collection-IsQuiet : (name : String) → IsQuiet (prepare_collection plat name)
  unfolding prepare_collection open_resources registrations
  prepare_collection-IsQuiet name =
      asked-IsQuiet (collection_prepared name) (λ h. plat.collection_answer h name) (λ h. refl)
        (λ h. refl)

  storage-IsQuiet :
      (mongo : Config.Mongo) (redis : Config.Redis) (collection : String) {rest : Launch (Unit {0})}
      → IsQuiet rest
      → IsQuiet (
          connect_mongo plat mongo >>= (λ u.
            connect_redis plat redis >>= (λ v. prepare_collection plat collection >>= (λ w. rest))))
  storage-IsQuiet mongo redis collection quiet = IsQuiet-bind (connect_mongo-IsQuiet mongo) (λ u.
      IsQuiet-bind (connect_redis-IsQuiet redis)
        (λ v. IsQuiet-bind (prepare_collection-IsQuiet collection) (λ w. quiet)))

  entered-IsQuiet : IsQuiet (note service_entered)
  unfolding open_resources registrations
  entered-IsQuiet = record {
    balanced = record { at = λ h ne. refl };
    silent = record { at = λ h. refl };
  }

  pub start_meeting-IsQuiet : (config : MeetingConfig) → IsQuiet (start_meeting plat config)
  unfolding start_meeting
  start_meeting-IsQuiet config = storage-IsQuiet config.mongo config.redis "meeting" (
      IsQuiet-bind (user_client-IsQuiet config.share.rpc_register_name.user) (λ u. entered-IsQuiet))

  pub start_user-IsQuiet : (config : UserConfig) → IsQuiet (start_user plat config)
  unfolding start_user
  start_user-IsQuiet config =
      storage-IsQuiet config.mongo config.redis "user" (
        IsQuiet-bind (client-IsQuiet config.share.rpc_register_name.meeting) (λ u. entered-IsQuiet))

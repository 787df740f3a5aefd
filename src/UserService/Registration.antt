-- ===== src/UserService/Registration.antt =====
-- `UserRegister` of internal/rpc/user/user.go.
use openmeeting_server.Base.{String, ◌≢◌, List, ◌∷◌, map, true, ◌≡◌, ◌++◌}
use openmeeting_server.Base.Lists.{All}
use openmeeting_server.Model.{User}
use openmeeting_server.Wire.{UserInfo}
use openmeeting_server.Result.{ok}
use openmeeting_server.Env
use openmeeting_server.Env.{Env, Exec, ◌>>◌}
use openmeeting_server.Ensures.{Ensures, Effect}
use openmeeting_server.Storage.Cache.{exec_del}
use openmeeting_server.UserStorage.{create_user_mgo, new_user, del_users_info}
use openmeeting_server.UserService.Ids.{IsUserId}
use openmeeting_server.UserService.{new_users}

abbrev pub AllValid : List UserInfo → Type 0
AllValid users = All (λ user. IsUserId user.user_id) users

-- What the program relies on of `datautil.DuplicateAny`: two equal keys are reported.
pub record DetectsDuplicates (env : Env) : Type 0 where
  pub detects :
      (x : String) (before between after : List String)
      → env.duplicate_any (before ++ x ∷ between ++ x ∷ after) ≡ true

-- No text stands at two places.
abbrev pub IsDistinct : List String → Type 0
IsDistinct ids =
    (x : String) (before between after : List String) → ids ≢ before ++ x ∷ between ++ x ∷ after

module _ (env : Env) where
  body : List User → Exec (Unit {0})
  unfolding create_user_mgo exec_del new_user del_users_info
  body users = do
    create_user_mgo env users
    exec_del env (del_users_info new_user (map (λ e. e.user_id) users))

  abbrev pub Registered : List UserInfo → Effect (Unit {0})
  Registered users p u q =
      IsDistinct (map (λ e. e.user_id) users)
      × AllValid users
      × (env.insert_users_answer p.calls (new_users users) ≡ ok tt)

-- ===== src/UserRpc.antt =====
-- pkg/rpcclient/user.go and pkg/user/meeting.go: the user service, asked from the meeting service.
use openmeeting_server.Base.{String, List, [], ◌∷◌, map, Option}
use openmeeting_server.Result.{coded, element_at}
use openmeeting_server.Constants.{user_id_not_found_error}
use openmeeting_server.Wire.{UserInfo}
use openmeeting_server.Env
use openmeeting_server.Env.{◌>>=◌, ◌>>◌, Env, Exec, pure, raise, lift, ask}

-- `sdkws.PublicUserInfo`, with the fields that are filled
pub record PublicUserInfo : Type 0 where
  pub user_id : String
  pub nickname : String

module _ (env : Env) where
  get_users_infos : List String → Exec (List UserInfo)
  get_users_infos [] = pure []
  get_users_infos (id ∷ ids) =
      ask (Env.get_designate_users (id ∷ ids)) (λ h. env.get_designate_users_answer h (id ∷ ids))

  missing_ids : List String → List UserInfo → Exec (List UserInfo)
  missing_ids [] users = pure users
  missing_ids (id ∷ ids) users = raise (coded user_id_not_found_error)

  unfoldable pub get_users_info : List String → Exec (List UserInfo)
  unfolding get_users_infos missing_ids
  get_users_info [] = pure []
  get_users_info (id ∷ ids) = do
    users ← get_users_infos (id ∷ ids)
    missing_ids (env.single (id ∷ ids) (map (λ e. e.user_id) users)) users

  unfoldable pub get_user_info : String → Exec UserInfo
  unfolding get_users_info element_at
  get_user_info user_id = do users ← get_users_info (user_id ∷ []); lift (element_at users 0)

  unfoldable pub get_public_user_infos : List String → Exec (List PublicUserInfo)
  unfolding get_users_info
  get_public_user_infos user_ids = do
    users ← get_users_info user_ids
    pure (map (λ (e : UserInfo). record { user_id = e.user_id; nickname = e.nickname }) users)

  unfoldable pub get_public_user_info : String → Exec PublicUserInfo
  unfolding get_public_user_infos element_at
  get_public_user_info user_id = do
    users ← get_public_user_infos (user_id ∷ [])
    lift (element_at users 0)

  -- `datautil.SliceToMap` by the key of a user
  module _ (slice_to_map : (A : Type 0) → List A → (A → String) → String → Option A) where
    unfoldable pub get_users_info_map : List String → Exec (String → Option UserInfo)
    unfolding get_users_info
    get_users_info_map user_ids = do
      users ← get_users_info user_ids
      pure (slice_to_map UserInfo users (λ (e : UserInfo). e.user_id))

    unfoldable pub get_public_user_info_map : List String → Exec (String → Option PublicUserInfo)
    unfolding get_public_user_infos
    get_public_user_info_map user_ids = do
      users ← get_public_user_infos user_ids
      pure (slice_to_map PublicUserInfo users (λ (e : PublicUserInfo). e.user_id))

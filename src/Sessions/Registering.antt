-- ===== src/Sessions/Registering.antt =====
-- The registration of users writes no token.
use openmeeting_server.Base.{
  String, List, [], ◌∷◌, ℕ, zero, suc, map, not, ◌≡◌, refl, ◌∙◌, ap, inl, inr,
}
use openmeeting_server.Model.{User}
use openmeeting_server.Wire.{UserInfo}
use openmeeting_server.Result.{args, coded, Result-cases}
use openmeeting_server.Constants.{has_registered}
use openmeeting_server.Env
use openmeeting_server.Env.{Env, Process, ◌>>◌}
use openmeeting_server.Storage.Meta.{MetaCache}
use openmeeting_server.Storage.Cache.{del_key, del_keys, exec_del}
use openmeeting_server.Storage.Invalidation.{RunsOnce}
use openmeeting_server.UserStorage.{create_user_mgo, create_users, new_user, del_users_info}
use openmeeting_server.UserService.{check_user_ids, new_users, user_register}
use openmeeting_server.Sessions.{state_of}
use openmeeting_server.Sessions.Keeps.{
  Keeps, Keeps-pure, Keeps-ask, Keeps-raise, Keeps-lift, Keeps-bind, Keeps-unless,
}

module _ (env : Env) (key : String) where
  del_key_lem :
      (n : ℕ) (k : String) (p : Process)
      → state_of env key (del_key env n k p).1.calls ≡ state_of env key p.calls
  unfolding del_key state_of
  del_key_lem zero k p = refl
  del_key_lem (suc n) k p = elim (Result-cases (env.tag_as_deleted_answer p.calls k)) [
    | inl h ↦ rw h.1 refl
    | inr h ↦ rw h.1 (del_key_lem n k (record p { calls = Env.tag_as_deleted k ∷ p.calls }))
  ]

  del_keys-Keeps : (n : ℕ) (keys : List String) → Keeps env key (del_keys env n keys)
  unfolding del_keys
  del_keys-Keeps n [] = Keeps-pure tt
  del_keys-Keeps n (k ∷ keys) =
      Keeps-bind {m = del_key env n k} (record { at = λ p. del_key_lem n k p })
        λ u. del_keys-Keeps n keys

  exec_del-Keeps : (m : MetaCache) → Keeps env key (exec_del env m)
  unfolding exec_del
  exec_del-Keeps m = del_keys-Keeps m.max_retry_times m.keys

  create_users-Keeps : (users : List User) → RunsOnce env → Keeps env key (create_users env users)
  unfolding create_users create_user_mgo
  create_users-Keeps users once =
      let body =
        create_user_mgo env users
        >> exec_del env (del_users_info new_user (map (λ e. e.user_id) users)) in
      let keeps : Keeps env key body =
        Keeps-bind (Keeps-ask (Env.insert_users users) (λ h. env.insert_users_answer h users) refl)
          λ u. exec_del-Keeps (del_users_info new_user (map (λ e. e.user_id) users)) in
      record { at = λ p. ap (λ r. state_of env key r.1.calls) (once.runs body p) ∙ keeps.at p }

  pub user_register-Keeps :
      (users : List UserInfo) → RunsOnce env → Keeps env key (user_register env users)
  unfolding user_register
  user_register-Keeps [] once = Keeps-raise args
  user_register-Keeps (user ∷ users) once =
      Keeps-unless (not (env.duplicate_any (map (λ e. e.user_id) (user ∷ users))))
        (coded has_registered)
        (Keeps-bind (Keeps-lift (check_user_ids (user ∷ users)))
          λ u. create_users-Keeps (new_users (user ∷ users)) once)

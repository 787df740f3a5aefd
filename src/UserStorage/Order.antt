-- ===== src/UserStorage/Order.antt =====
-- The batch read of users: pkg/common/storage/cache/redis/meta_cache.go and controller/user.go.
use openmeeting_server.Base.{
  String, ◌≤◌, ◌≡◌, refl, sym, ◌∙◌, List, [], ◌∷◌, ◌⊎◌, inl, inr, eqb, eqb_eq, arith,
}
use openmeeting_server.Base.Lists.{length}
use openmeeting_server.Model.{User}
use openmeeting_server.Result.{Result, ok, err, record_not_found}
use openmeeting_server.Env.{Env, Process, Exec}
use openmeeting_server.Ensures.{
  Ensures, Ensures-bind, Ensures-attempt, Ensures-pure, Ensures-weaken, Ensures-if, Ensures-raise,
}
use openmeeting_server.Storage.Cache.{get_cache}
use openmeeting_server.Storage.Key.{get_user_info_key}
use openmeeting_server.UserStorage.{
  take_user_mgo, on_val, batch_get_cache2, get_users_info, find_with_error,
}

module _ (env : Env) where
  abbrev cached : String → Exec User
  cached id =
      get_cache env env.marshal_user env.unmarshal_user (get_user_info_key id)
        (take_user_mgo env id)

  -- The read through the cache answered this user for the id, at some moment.
  abbrev pub Answers : String → User → Type 0
  Answers id user = (s : Process) × ((cached id s).0 ≡ ok user)

  -- One user for each id, in order
  abbrev pub Matches : List String → List User → Type 0
  Matches [] users = users ≡ []
  Matches (id ∷ ids) users =
      (user : User) × (rest : List User) × (users ≡ user ∷ rest)
      × Answers id user
      × Matches ids rest

  -- The same with ids left out
  abbrev Found : List String → List User → Type 0
  Found [] users = users ≡ []
  Found (id ∷ ids) users =
      ((user : User) × (rest : List User) × (users ≡ user ∷ rest)
        × Answers id user
        × Found ids rest)
      ⊎ Found ids users

  Found-length :
      (ids : List String) (users : List User) → Found ids users → length users ≤ length ids
  Found-length [] users e = rw e (omega arith)
  Found-length (id ∷ ids) users (inl (user, rest, e, a, f)) =
      rw e (omega (arith, Found-length ids rest f))
  Found-length (id ∷ ids) users (inr f) = omega (arith, Found-length ids users f)

  Found-Matches :
      (ids : List String) (users : List User)
      → length users ≡ length ids
      → Found ids users
      → Matches ids users
  Found-Matches [] users h e = e
  Found-Matches (id ∷ ids) users h (inl (user, rest, e, a, f)) =
      (user, rest, e, a, Found-Matches ids rest (omega (arith, rw e at h)) f)
  Found-Matches (id ∷ ids) users h (inr f) = absurd (omega (arith, Found-length ids users f, h))

  on_val-Ensures :
      (id : String) (ids : List String) (val : Result User) (rest : Exec (List User))
      → ((user : User) → val ≡ ok user → Answers id user)
      → Ensures (λ p users q. Found ids users) rest
      → Ensures (λ p users q. Found (id ∷ ids) users) (on_val env val rest)
  unfolding on_val
  on_val-Ensures id ids (ok v) rest ha hr =
      Ensures-bind hr (λ vs. Ensures-pure (v ∷ vs))
        (λ p q vs users r f back. inl (v, vs, back.0, ha v refl, f))
  on_val-Ensures id ids (err e) rest ha hr =
      Ensures-if (env.has_not_found_code e) (λ t. Ensures-weaken hr (λ p users q f. inr f))
        (Ensures-raise e)

  batch-Ensures :
      (ids : List String)
      → Ensures
          (λ p users q. Found ids users)
          (batch_get_cache2 env env.marshal_user env.unmarshal_user get_user_info_key
            (take_user_mgo env)
            ids)
  unfolding batch_get_cache2
  batch-Ensures [] = record { at = λ p users e. sym (cc e) }
  batch-Ensures (id ∷ ids) =
      let rest =
        batch_get_cache2 env env.marshal_user env.unmarshal_user get_user_info_key
          (take_user_mgo env) ids in
      Ensures-bind
        {S = λ val p users q.
          ((user : User) → val ≡ ok user → Answers id user) → Found (id ∷ ids) users}
        {f = λ val. on_val env val rest} (Ensures-attempt (cached id))
        (λ val. record {
          at = λ p users e ha. (on_val-Ensures id ids val rest ha (batch-Ensures ids)).at p users e;
        })
        (λ p q val users r found f. f (λ user e. (p, sym found.0 ∙ e)))

  -- When the read of users succeeds, it gives one user for each id, in the order of the ids, and
  -- each is one that the read through the cache answered for this id.
  pub find_with_error-Matches :
      (ids : List String) → Ensures (λ p users q. Matches ids users) (find_with_error env ids)
  unfolding find_with_error get_users_info
  find_with_error-Matches ids =
      Ensures-bind {S = λ users p users' q. (length users ≡ length ids) × (users' ≡ users)}
        (batch-Ensures ids)
        (λ users.
          Ensures-if (eqb (length users) (length ids))
            (λ same.
              Ensures-weaken (Ensures-pure users)
                (λ p users' q back. (eqb_eq (length users) (length ids) same, back.0)))
            (Ensures-raise record_not_found))
        (λ p q users users' r found e. rw e.1 (Found-Matches ids users e.0 found))

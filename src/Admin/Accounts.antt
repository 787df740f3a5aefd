-- ===== src/Admin/Accounts.antt =====
-- The accounts that the administration makes, and the sessions that it opens.
use Prim.Native.String.{◌++◌}
use openmeeting_server.Base.{
  Option, none, some, String, List, [], ◌∷◌, none, true, false, ◌≡◌, refl, sym, ◌∙◌, ◌==◌, eq_iff,
  ap,
}
use openmeeting_server.Model.{User}
use openmeeting_server.Result.{ok, coded}
use openmeeting_server.Constants.{password_err}
use openmeeting_server.Env.{Env, Process, lift, unless, ◌>>=◌}
use openmeeting_server.Ensures.{Ensures, Ensures-bind, Ensures-pure, Ensures-weaken}
use openmeeting_server.SecureTools.{verify_password, hash_password, salt_from}
use openmeeting_server.Token.{Token}
use openmeeting_server.UserStorage.{get_by_account, generate_user_id}
use openmeeting_server.UserService.{user_login, open_session, as_coded}
use openmeeting_server.Meeting.Requests.{Context}
use openmeeting_server.Admin.{
  on_account, gin_error, Person, or_error, on_result, admin_login, db_user, db_users, Result,
  Option, err, Err, some,
}

module _ (env : Env) where
  -- The stored person logs in with the password of the file.
  abbrev pub Stores : Person → User → Type 0
  Stores person user =
      (user.account ≡ person.account)
      × (user.nickname ≡ person.nickname)
      × ((verify_password env person.password user.salt_value == user.password) ≡ true)

  abbrev pub StoresAll : List Person → List User → Type 0
  StoresAll [] users = users ≡ []
  StoresAll (person ∷ people) users =
      (user : User) × (rest : List User) × (users ≡ user ∷ rest)
      × Stores person user
      × StoresAll people rest

  hash_password-Ensures :
      (password : String)
      → Ensures
          (λ p hashed q. (verify_password env password hashed.1 == hashed.0) ≡ true)
          (hash_password env password)
  unfolding hash_password verify_password
  hash_password-Ensures password = record {
    at = λ p hashed e.
        let same : (
          env.md5_hex (password ++ salt_from (env.random_answer p.calls 62) 16 0),
          salt_from (env.random_answer p.calls 62) 16 0,
        )
            ≡ hashed =
          cc e in
        (eq_iff _ _).1 (ap (λ h. env.md5_hex (password ++ h.1)) (sym same) ∙ ap (λ h. h.0) same);
  }

  -- When the loop over an imported file succeeds, it gives one user for each person, in order,
  -- with the account and the nickname of the person, and with a hash that the password of the
  -- person passes.
  pub db_users-Ensures :
      (people : List Person) → Ensures (λ p users q. StoresAll people users) (db_users env people)
  unfolding db_users
  db_users-Ensures [] = record { at = λ p users e. cc e }
  db_users-Ensures (person ∷ people) =
      Ensures-bind
        {S = λ hashed p users q.
          (verify_password env person.password hashed.1 == hashed.0) ≡ true
          → StoresAll (person ∷ people) users}
        (hash_password-Ensures person.password)
        (λ hashed.
          Ensures-bind {R = λ p user_id q. Unit {0}}
            {S = λ user_id p users q.
              (verify_password env person.password hashed.1 == hashed.0) ≡ true
              → StoresAll (person ∷ people) users}
            {m = generate_user_id env} (record { at = λ p a e. tt })
            (λ user_id.
              Ensures-bind {S = λ rest p users q. users ≡ db_user env person user_id hashed ∷ rest}
                (db_users-Ensures people)
                (λ rest. Ensures-weaken (Ensures-pure _) λ p users q back. back.0)
                (λ p q rest users r stored e right.
                  (db_user env person user_id hashed, rest, e, (refl, refl, right), stored)))
            (λ p q user_id users r u f. f))
        (λ p q hashed users r right f. f right)

module _ (env : Env) (t : Token) (p : Process) where
  -- A person whose account has the salt and the hash that HashPassword made of a password gets
  -- through the password check of UserLogin with this password, and the login goes on to open the
  -- session.
  pub user_login-db_user :
      (ctx : Context) (person : Person) (user_id : String) (hashed : String × String) (q : Process)
      → (hash_password env person.password q).0 ≡ ok hashed
      → (get_by_account env person.account p).0 ≡ ok (db_user env person user_id hashed)
      → user_login env t ctx (record { account = person.account; password = person.password }) p
        ≡ open_session env t ctx
            (db_user env person user_id hashed)
            (get_by_account env person.account p).1
  unfolding user_login
  user_login-db_user ctx person user_id hashed q made found =
      let right = (hash_password-Ensures env person.password).at q hashed made in
      ap
        (λ r.
          (do
            user ← lift (as_coded password_err r)
            unless (verify_password env person.password user.salt_value == user.password)
                (coded password_err) (open_session env t ctx user))
            (get_by_account env person.account p).1)
        found
      ∙ rw right refl

  -- The error of the lookup, nil if it succeeded
  abbrev pub error_of_lookup : Result User → Option Err
  error_of_lookup (ok user) = none
  error_of_lookup (err e) = some e

  turned_away :
      (found : Result User) (password : String) (q : Process)
      → ((user : User)
          → found ≡ ok user
          → (verify_password env password user.salt_value == user.password) ≡ false)
      → on_result found (on_account env t password) q ≡ (ok (gin_error (error_of_lookup found)), q)
  unfolding on_result on_account
  turned_away (ok user) password q wrong = rw (wrong user refl) refl
  turned_away (err e) password q wrong = refl

  -- AdminLogin with an account that is not found, or with a password that does not hash to the
  -- stored one, answers an error, which is that of the lookup, and so nil when the account was
  -- found, and does nothing but look the account up.
  pub admin_login-refused :
      (account password : String)
      → ((user : User)
          → (get_by_account env account p).0 ≡ ok user
          → (verify_password env password user.salt_value == user.password) ≡ false)
      → admin_login env t account password p ≡ (
        ok (gin_error (error_of_lookup (get_by_account env account p).0)),
        (get_by_account env account p).1,
      )
  unfolding admin_login or_error
  admin_login-refused account password wrong =
      turned_away (get_by_account env account p).0 password (get_by_account env account p).1 wrong

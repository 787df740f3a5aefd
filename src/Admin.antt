-- ===== src/Admin.antt =====
-- internal/api/admin/admin.go: the handlers of the administration, after the request was parsed.
pub mod Accounts
pub mod Routes
pub mod Sessions
use openmeeting_server.Base.{String, List, [], ◌∷◌, Option, none, some, ◌==◌, if◌then◌else◌, ℕ}
use openmeeting_server.Base.{ℕ}
use openmeeting_server.Base.Lists.{get_elem?}
use openmeeting_server.Xlsx.Cells.{Value, text, get_column_index, set_struct_values}
use openmeeting_server.Model.{User}
use openmeeting_server.Result.{Result, ok, err, Err, args, panic}
use openmeeting_server.Env
use openmeeting_server.Env.{Env, Exec, pure, raise, lift, attempt, ◌>>=◌}
use openmeeting_server.SecureTools.{verify_password, hash_password}
use openmeeting_server.Token.{Token, create_token}
use openmeeting_server.UserStorage.{get_by_account, store_token, generate_user_id, create_users}

-- What a handler writes: `apiresp.GinSuccess`, or `apiresp.GinError` with an error that may be nil.
pub data Answer (A : Type 0) : Type 0 where
  gin_success : A → Answer A
  gin_error : Option Err → Answer A

pub record AdminLoginResp : Type 0 where
  pub admin_account : String
  pub admin_token : String
  pub nickname : String

-- One person of an imported file, or of the request to register
pub record Person : Type 0 where
  pub account : String
  pub nickname : String
  pub password : String
  pub birth : String
  pub gender : String
  pub email : String

-- The cells of a user, in the order of the struct
abbrev pub person_fields : List (String × Value)
person_fields =
    ("account", text "")
    ∷ ("nickname", text "")
    ∷ ("password", text "")
    ∷ ("birth", text "")
    ∷ ("gender", text "")
    ∷ ("email", text "")
    ∷ []

abbrev pub field_text : Value → String
field_text (text s) = s
field_text _ = ""

abbrev pub field_at : ℕ → List (String × Value) → String
field_at i fields = elim (get_elem? fields i) [ none ↦ "" | some (tag, value) ↦ field_text value ]

abbrev pub person_of : List (String × Value) → Person
person_of fields = record {
  account = field_at 0 fields;
  nickname = field_at 1 fields;
  password = field_at 2 fields;
  birth = field_at 3 fields;
  gender = field_at 4 fields;
  email = field_at 5 fields;
}

abbrev pub one_person : Result (List (String × Value)) → Result (List Person) → Result (List Person)
one_person (err e) rest = err e
one_person (ok fields) (err e) = err e
one_person (ok fields) (ok people) = ok (person_of fields ∷ people)

module _ {A B : Type 0} where
  unfoldable pub on_result : Result A → (A → Exec (Answer B)) → Exec (Answer B)
  on_result (ok a) f = f a
  on_result (err e) f = pure (gin_error (some e))

  -- An error is answered, and ends the handler.
  unfoldable pub or_error : Exec A → (A → Exec (Answer B)) → Exec (Answer B)
  unfolding on_result
  or_error m f = do r ← attempt m; on_result r f

-- The storage's error is answered as `errs.ErrArgs`.
unfoldable pub created : Result (Unit {0}) → Answer (Unit {0})
created (ok u) = gin_success u
created (err e) = gin_error (some args)

module _ (env : Env) where
  -- `WrapMsg` of the error of the lookup, which is nil here, is nil.
  unfoldable pub on_account : Token → String → User → Exec (Answer AdminLoginResp)
  unfolding or_error verify_password create_token store_token
  on_account t password user =
      if verify_password env password user.salt_value == user.password
      then or_error (create_token env t user.user_id) (λ user_token.
        or_error (store_token env user.user_id user_token) (λ u. pure (
          gin_success (record {
            admin_account = user.account;
            admin_token = user_token;
            nickname = user.nickname;
          }))))
      else pure (gin_error none)

  unfoldable pub admin_login : Token → String → String → Exec (Answer AdminLoginResp)
  unfolding or_error get_by_account on_account
  admin_login t account password = or_error (get_by_account env account) (on_account t password)

  -- A new user with the hash of the password, and an id of the counter
  abbrev pub db_user : Person → String → String × String → User
  db_user person user_id (passwd, salt) = record {
    user_id = user_id;
    account = person.account;
    nickname = person.nickname;
    password = passwd;
    salt_value = salt;
  }

  unfoldable pub register_user : Person → Exec (Answer (Unit {0}))
  unfolding or_error generate_user_id hash_password create_users created
  register_user person = or_error (generate_user_id env) (λ user_id. do
    hashed ← hash_password env person.password
    r ← attempt (create_users env (db_user person user_id hashed ∷ []))
    pure (created r))

  -- The loop over the people of a file: the hash first, then the id
  unfoldable pub db_users : List Person → Exec (List User)
  unfolding hash_password generate_user_id
  db_users [] = pure []
  db_users (person ∷ people) = do
    hashed ← hash_password env person.password
    user_id ← generate_user_id env
    rest ← db_users people
    pure (db_user person user_id hashed ∷ rest)

  unfoldable pub create_all : List User → Exec (Answer (Unit {0}))
  unfolding create_users created
  create_all users = do r ← attempt (create_users env users); pure (created r)

  unfoldable pub import_user_by_json : List Person → Exec (Answer (Unit {0}))
  unfolding or_error db_users create_all
  import_user_by_json people =
      or_error (db_users people) (λ users. elim users [
        | [] ↦ pure (gin_success tt)
        | user ∷ rest ↦ create_all (user ∷ rest)
      ])

-- With the functions of the standard library that the cells need
module _ (env : Env) (to_lower : String → String) (parse_float : ℕ → String → Option ℕ)
    (to_float32 : ℕ → ℕ) where
  -- The loop over the rows
  unfoldable pub read_rows : List (String × ℕ) → List (List String) → Result (List Person)
  unfolding set_struct_values
  read_rows col_index [] = ok []
  read_rows col_index (row ∷ rows) =
      one_person (set_struct_values to_lower parse_float to_float32 person_fields row col_index)
        (read_rows col_index rows)

  -- After the rows of the sheet were read; a sheet without rows is a panic.
  unfoldable pub import_user_by_xlsx : List (List String) → Exec (Answer (Unit {0}))
  unfolding or_error read_rows get_column_index db_users create_all
  import_user_by_xlsx [] = raise panic
  import_user_by_xlsx (headers ∷ rows) =
      or_error (lift (read_rows (get_column_index headers) rows))
        (λ people. or_error (db_users env people) (create_all env))

-- ===== src/Admin/Sessions.antt =====
-- The session that the administrator's login opens.
use openmeeting_server.Base.{String, ◌≡◌, refl, sym, ap, ◌==◌, true}
use openmeeting_server.Model.{User}
use openmeeting_server.Result.{Result, ok, err}
use openmeeting_server.Env.{Env, Process, Exec}
use openmeeting_server.Ensures.{Ensures, Effect, Ensures-if}
use openmeeting_server.SecureTools.{verify_password}
use openmeeting_server.Token.{Token}
use openmeeting_server.UserStorage.{get_by_account}
use openmeeting_server.Sessions.{active}
use openmeeting_server.Sessions.Effects.{
  Becomes, Same, Keeps-Ensures, create_token-Keeps, store_token-Ensures, get_by_account-Keeps,
  Same-Becomes,
}
use openmeeting_server.Admin.{
  Answer, gin_success, AdminLoginResp, or_error, on_result, on_account, admin_login,
}

-- The effect holds when the handler answers success.
abbrev pub Succeeds : {B : Type 0} → Effect B → Effect (Answer B)
Succeeds T p answer q = (b : _) → answer ≡ gin_success b → T p b q

module _ {A B : Type 0} {R : Effect A} {S : A → Effect B} {T : Effect B} where
  on_result-at :
      (f : A → Exec (Answer B))
      → ((a : A) → Ensures (Succeeds (S a)) (f a))
      → ((p q : Process) (a : A) (b : B) (r : Process) → R p a q → S a q b r → T p b r)
      → (p q : Process) (result : Result A) → ((a : A) → result ≡ ok a → R p a q)
      → (answer : Answer B) → (on_result result f q).0 ≡ ok answer
      → Succeeds T p answer (on_result result f q).1
  unfolding on_result
  on_result-at f hf join p q (ok a) hr answer e b s =
      join p q a b (f a q).1 (hr a refl) ((hf a).at q answer e b s)
  on_result-at f hf join p q (err x) hr answer e b s = absurd (cc (e, s))

  or_error-Ensures :
      {m : Exec A} {f : A → Exec (Answer B)}
      → Ensures R m
      → ((a : A) → Ensures (Succeeds (S a)) (f a))
      → ((p q : Process) (a : A) (b : B) (r : Process) → R p a q → S a q b r → T p b r)
      → Ensures (Succeeds T) (or_error m f)
  unfolding or_error
  or_error-Ensures {m} {f} hm hf join = record {
    at = λ p answer e. on_result-at f hf join p (m p).1 (m p).0 (hm.at p) answer e;
  }

module _ (env : Env) where
  -- The account was found with the hash of the password, its name is answered, and its session is the
  -- token answered, while all others stay.
  abbrev pub AdminLoggedIn : String → String → Effect AdminLoginResp
  AdminLoggedIn account password p resp q =
      (user : User) × ((get_by_account env account p).0 ≡ ok user)
      × ((verify_password env password user.salt_value == user.password) ≡ true)
      × (resp.admin_account ≡ user.account)
      × Becomes env user.user_id (active resp.admin_token) p q

  abbrev Opened : User → String → Effect AdminLoginResp
  Opened user password p resp q =
      ((verify_password env password user.salt_value == user.password) ≡ true)
      × (resp.admin_account ≡ user.account)
      × Becomes env user.user_id (active resp.admin_token) p q

  answer_of :
      (user : User) (token : String) (resp : AdminLoginResp) {p : Process}
      → Path
          (Answer AdminLoginResp)
          (gin_success (record {
            admin_account = user.account;
            admin_token = token;
            nickname = user.nickname;
          }))
          (gin_success resp)
      → (resp.admin_account ≡ user.account) × (resp.admin_token ≡ token) × (p ≡ p)
  answer_of user token resp e =
      let same : record {
        admin_account = user.account;
        admin_token = token;
        nickname = user.nickname;
      }
          ≡ resp =
        cc e in
      (ap (λ r. r.admin_account) (sym same), ap (λ r. r.admin_token) (sym same), refl)

  on_account-Ensures :
      (t : Token) (password : String) (user : User)
      → Ensures (Succeeds (Opened user password)) (on_account env t password user)
  unfolding on_account
  on_account-Ensures t password user =
      Ensures-if (verify_password env password user.salt_value == user.password)
        (λ right.
          or_error-Ensures {R = λ p token q. Same env p q}
            {S = λ token p resp q.
              (resp.admin_account ≡ user.account)
              × (resp.admin_token ≡ token)
              × Becomes env user.user_id (active token) p q}
            (Keeps-Ensures (λ key. create_token-Keeps env key t user.user_id))
            (λ token.
              or_error-Ensures {R = λ p u q. Becomes env user.user_id (active token) p q}
                {S = λ u p resp q.
                  (resp.admin_account ≡ user.account) × (resp.admin_token ≡ token) × (q ≡ p)}
                (store_token-Ensures env user.user_id token)
                (λ u. record { at = λ p answer e resp s. answer_of user token resp (cc (e, s)) })
                (λ p q u resp r b (who, what, back). (who, what, rw back b)))
            (λ p q token resp r same (who, what, b).
              (right, who, rw what (Same-Becomes env p q r same b))))
        (record { at = λ p answer e resp s. absurd (cc (e, s)) })

  -- An AdminLogin that answers success has found the account with the hash of the password given,
  -- answers its name, leaves its session active with the token answered, and all other sessions as
  -- they were.
  pub admin_login-Ensures :
      (t : Token) (account password : String)
      → Ensures (Succeeds (AdminLoggedIn account password)) (admin_login env t account password)
  unfolding admin_login
  admin_login-Ensures t account password =
      or_error-Ensures {R = λ p user q. ((get_by_account env account p).0 ≡ ok user) × Same env p q}
        {S = λ user. Opened user password} {m = get_by_account env account}
        {f = on_account env t password}
        (record { at = λ p user e. (e, λ key. (get_by_account-Keeps env key account).at p) })
        (λ user. on_account-Ensures t password user)
        (λ p q user resp r (found, same) (right, who, b).
          (user, found, right, who, Same-Becomes env p q r same b))

-- ===== src/Admin/Routes.antt =====
-- internal/api/admin/router.go: the routes of the administration, which have no middleware of the
-- repository in front. A request, a file or a sheet that cannot be read is answered with its error.
use openmeeting_server.Base.{String, List, [], ◌∷◌, Option, ◌==◌, if◌then◌else◌, ℕ}
use openmeeting_server.Result.{Result, record_not_found}
use openmeeting_server.Env.{Env, Exec, pure, raise, lift, ◌>>=◌, ◌>>◌}
use openmeeting_server.Token.{Token}
use openmeeting_server.Admin.{
  Answer, AdminLoginResp, Person, or_error, admin_login, register_user, import_user_by_json,
  import_user_by_xlsx,
}

pub data AdminReply : Type 0 where
  logged_in : Answer AdminLoginResp → AdminReply
  stored : Answer (Unit {0}) → AdminReply

-- The messages, the file of people and the rows of the sheet of a request
pub record AdminDecoder : Type 0 where
  pub login_req : String → Result (String × String)
  pub register_req : String → Result Person
  pub json_file : String → Result (List Person)
  pub xlsx_rows : String → Result (List (List String))

pub record AdminRoute : Type 0 where
  pub path : String
  pub handler : String → Exec AdminReply

abbrev pub whitelist : List String
whitelist = "/admin/login" ∷ "/admin/user/register" ∷ []

-- With the functions of the standard library that the cells need
module _ (env : Env) (to_lower : String → String) (parse_float : ℕ → String → Option ℕ)
    (to_float32 : ℕ → ℕ) (codec : AdminDecoder) (t : Token) where
  unfoldable pub admin_routes : List AdminRoute
  unfolding or_error admin_login register_user import_user_by_json import_user_by_xlsx
  admin_routes =
      record {
        path = "/admin/login";
        handler = λ body. do
          answer ← or_error (lift (codec.login_req body)) (λ req. admin_login env t req.0 req.1)
          pure (logged_in answer);
      }
      ∷ record {
        path = "/admin/user/register";
        handler = λ body. do
          answer ← or_error (lift (codec.register_req body)) (register_user env)
          pure (stored answer);
      }
      ∷ record {
        path = "/admin/user/import/json";
        handler = λ body. do
          answer ← or_error (lift (codec.json_file body)) (import_user_by_json env)
          pure (stored answer);
      }
      ∷ record {
        path = "/admin/user/import/xlsx";
        handler = λ body. do
          answer ←
              or_error (lift (codec.xlsx_rows body))
                (import_user_by_xlsx env to_lower parse_float to_float32)
          pure (stored answer);
      }
      ∷ []

  -- A path with no route is answered by gin with its own error.
  unfoldable pub find_admin_route : String → List AdminRoute → Exec AdminRoute
  find_admin_route path [] = raise record_not_found
  find_admin_route path (r ∷ rs) =
      let rest = find_admin_route path rs in if r.path == path then pure r else rest

  -- A request, after `mw.GinParseToken` of the libraries with the secret and the whitelist
  unfoldable pub serve_admin :
      (String → List String → String → String → Result (Unit {0}))
      → String
      → String
      → String
      → Exec AdminReply
  unfolding admin_routes find_admin_route
  serve_admin gin_parse_token path token body = do
    lift (gin_parse_token t.secret whitelist path token)
    r ← find_admin_route path admin_routes
    r.handler body

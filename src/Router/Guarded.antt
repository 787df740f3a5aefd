-- ===== src/Router/Guarded.antt =====
-- Requests whose token the middleware does not accept.
use openmeeting_server.Base.{
  String, List, [], ◌∷◌, true, Option, none, some, ◌==◌, ◌≡◌, ◌≢◌, refl, ◌∙◌, Bool-cases, inl, inr,
  eq_iff, ◌⊎◌, sym,
}
use openmeeting_server.Base.Lists.{All}
use openmeeting_server.Result.{ok, err, Err, record_not_found, Result-cases}
use openmeeting_server.Env.{Env, Process, writes}
use openmeeting_server.Token.{Token}
use openmeeting_server.Middleware.{check_token}
use openmeeting_server.Middleware.Reading.{check_token-ReadsOnly}
use openmeeting_server.Router.{
  Route, find_route, Gin, Request, routes, run_route, on_route, serve_request, user_routes,
  meeting_routes,
}
use openmeeting_server.Router.Handlers.{Decoder}

drop_two : List Route → List Route
drop_two (x ∷ y ∷ rs) = rs
drop_two _ = []

Option-cases : {A : Type 0} (o : Option A) → (o ≡ none) ⊎ ((a : A) × (o ≡ some a))
Option-cases none = inl refl
Option-cases (some a) = inr (a, refl)

checked_of_found :
    (path : String) (rs : List Route) (r : Route)
    → All (λ x. x.checks_token ≡ true) rs
    → find_route path rs ≡ some r
    → r.checks_token ≡ true
unfolding find_route
checked_of_found path [] r all e = absurd (cc e)
checked_of_found path (x ∷ rs) r all e = elim (Bool-cases (x.path == path)) [
  | inl here ↦ let same : x ≡ r = cc (rw here at e) in rw same at all.0
  | inr not_here ↦ checked_of_found path rs r all.1 (rw not_here at e)
]

find_route_skip :
    (path : String) (x : Route) (rs : List Route)
    → path ≢ x.path
    → find_route path (x ∷ rs) ≡ find_route path rs
unfolding find_route
find_route_skip path x rs other = elim (Bool-cases (x.path == path)) [
  | inl same ↦ absurd (other (sym ((eq_iff _ _).0 same)))
  | inr e ↦ rw e refl
]

module _ (env : Env) (gin : Gin) (codec : Decoder) (t : Token) where
  abbrev all_checked : List Route
  all_checked = drop_two (routes env gin codec t)

  -- Every path but those of the registration and of the login has the middleware in front.
  pub routes-checked :
      (path : String) (r : Route)
      → path ≢ "/user/register"
      → path ≢ "/user/login"
      → find_route path (routes env gin codec t) ≡ some r
      → r.checks_token ≡ true
  unfolding routes user_routes meeting_routes drop_two
  routes-checked path r not_register not_login e =
      checked_of_found path all_checked r
        (
          refl,
          (
            refl,
            (
              refl,
              (
                refl,
                (
                  refl,
                  (
                    refl,
                    (
                      refl,
                      (
                        refl,
                        (
                          refl,
                          (
                            refl,
                            (refl, (refl, (refl, (refl, (refl, (refl, (refl, (refl, tt)))))))),
                          ),
                        ),
                      ),
                    ),
                  ),
                ),
              ),
            ),
          ),
        )
        (sym (find_route_skip path _ all_checked not_login)
          ∙ sym (find_route_skip path _ _ not_register)
          ∙ e)

  -- How a request ends when its token is not accepted
  abbrev pub IsDenied : Request → Process → Type 0
  IsDenied req p =
      (e : Err) × ((serve_request env gin codec t req p).0 ≡ err e)
      × (writes (serve_request env gin codec t req p).1.calls ≡ writes p.calls)

  pub IsDenied-by_gate :
      (req : Request) (p : Process) (e : Err)
      → gin.gin_parse_token t.secret ("" ∷ []) req.path req.token ≡ err e
      → IsDenied req p
  unfolding serve_request
  IsDenied-by_gate req p e gate = (e, rw gate refl, rw gate refl)

  IsDenied-by_path :
      (req : Request) (p : Process)
      → gin.gin_parse_token t.secret ("" ∷ []) req.path req.token ≡ ok tt
      → find_route req.path (routes env gin codec t) ≡ none
      → IsDenied req p
  unfolding serve_request on_route
  IsDenied-by_path req p gate unknown =
      (record_not_found, rw (gate, unknown) refl, rw (gate, unknown) refl)

  IsDenied-by_token :
      (req : Request) (p : Process) (r : Route) (e : Err)
      → gin.gin_parse_token t.secret ("" ∷ []) req.path req.token ≡ ok tt
      → find_route req.path (routes env gin codec t) ≡ some r
      → r.checks_token ≡ true
      → (check_token env t req.token p).0 ≡ err e
      → IsDenied req p
  unfolding serve_request on_route run_route
  IsDenied-by_token req p r e gate found checks refused = (
    e,
    rw (gate, found, checks, refused) refl,
    rw (gate, found, checks, refused) ((check_token-ReadsOnly env t req.token).at p),
  )

  -- A request whose token the middleware does not accept is answered with an error, and no call
  -- changes anything, whatever its path but those of the registration and of the login, and
  -- whatever its body.
  pub serve_request-IsDenied :
      (req : Request) (p : Process) (e : Err)
      → req.path ≢ "/user/register"
      → req.path ≢ "/user/login"
      → (check_token env t req.token p).0 ≡ err e
      → IsDenied req p
  serve_request-IsDenied req p e not_register not_login refused =
      elim (Result-cases (gin.gin_parse_token t.secret ("" ∷ []) req.path req.token)) [
        | inr (x, gate) ↦ IsDenied-by_gate req p x gate
        | inl (u, gate) ↦ elim (Option-cases (find_route req.path (routes env gin codec t))) [
          | inl unknown ↦ IsDenied-by_path req p gate unknown
          | inr (r, found) ↦
              IsDenied-by_token req p r e gate found
                (routes-checked req.path r not_register not_login found) refused
        ]
      ]

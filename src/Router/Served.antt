-- ===== src/Router/Served.antt =====
-- Requests that are answered: with whose token, and for whom.
use openmeeting_server.Base.{ap, ◌∙◌, String, ◌∷◌, [], ◌≡◌, ◌≢◌, refl, inl, inr}
use openmeeting_server.Result.{ok, err, Err, coded, Result-cases}
use openmeeting_server.Env
use openmeeting_server.Env.{Env, Exec, writes, Process, ◌>>=◌, pure}
use openmeeting_server.Rpc.{remote}
use openmeeting_server.Token.{Token}
use openmeeting_server.Meeting.Requests.{EndMeetingReq}
use openmeeting_server.Meeting.Ending.{host_or_creator, end_meeting}
use openmeeting_server.Meeting.Ending.Rights.{end_meeting_denied}
use openmeeting_server.Middleware.Reading.{check_token-ReadsOnly}
use openmeeting_server.Model.{MeetingInfo}
use openmeeting_server.Storage.{take_with_error}
use openmeeting_server.LiveKit.{get_room_data}
use openmeeting_server.Constants.{meeting_auth_check_error}
use openmeeting_server.Sessions.{Faithful}
use openmeeting_server.Sessions.Parsing.{Accepted}
use openmeeting_server.Middleware.{check_token}
use openmeeting_server.Middleware.Access.{check_token-Ensures}
use openmeeting_server.Router.{
  Gin, Request, routes, run_route, on_route, serve_request, find_route, user_routes, meeting_routes,
  on_end_meeting,
}
use openmeeting_server.Router.Handlers.{on_end_meeting, Decoder, Reply, no_content, call}
use openmeeting_server.Router.Guarded.{IsDenied, IsDenied-by_gate, serve_request-IsDenied}

module _ (env : Env) (gin : Gin) (codec : Decoder) (t : Token) where
  -- When a request is answered with success, on any path but those of the registration and of the
  -- login, the middleware has found for its token a user whose session was not closed; if that
  -- session was opened with a token, it is the one of the request and not the mark of a kick-off;
  -- and the middleware has changed no session: as long as a key of Redis that is read has the
  -- value written last.
  pub serve_request-Accepted :
      (req : Request) (p : Process) (reply : Reply)
      → Faithful env
      → req.path ≢ "/user/register"
      → req.path ≢ "/user/login"
      → (serve_request env gin codec t req p).0 ≡ ok reply
      → (user_id : String) × ((check_token env t req.token p).0 ≡ ok user_id)
        × Accepted env req.token p user_id (check_token env t req.token p).1
  serve_request-Accepted req p reply faithful not_register not_login served =
      elim (Result-cases (check_token env t req.token p).0) [
        | inl (user_id, passed) ↦
            (user_id, passed, (check_token-Ensures env t req.token faithful).at p user_id passed)
        | inr (e, refused) ↦
            let (x, denied, same) =
              serve_request-IsDenied env gin codec t req p e not_register not_login refused in
            absurd (cc (served, denied))
      ]

  abbrev end_request : String → String → Request
  end_request token body = record { path = "/meeting/end_meeting"; token = token; body = body }

  serve_request-end_meeting :
      (token body user_id : String) (p : Process) (req : EndMeetingReq)
      → gin.gin_parse_token t.secret ("" ∷ []) "/meeting/end_meeting" token ≡ ok tt
      → codec.end_req body ≡ ok req
      → (check_token env t token p).0 ≡ ok user_id
      → serve_request env gin codec t (end_request token body) p
        ≡ (remote env "EndMeeting" (end_meeting env req) >>= (λ u. pure no_content))
            (check_token env t token p).1
  unfolding serve_request on_route run_route routes user_routes meeting_routes find_route
      on_end_meeting call
  serve_request-end_meeting token body user_id p req gate read passed = rw (gate, passed, read) refl

  abbrev called : String → Process → Process
  called name p = record p { calls = Env.rpc_request name ∷ p.calls }

  remote_refused :
      {A : Type 0} (name : String) (handler : Exec A) (f : A → Exec Reply) (p : Process) (x : Err)
      → (handler (called name p)).0 ≡ err x
      → writes (handler (called name p)).1.calls ≡ writes p.calls
      → (e : Err) × (((remote env name handler >>= f) p).0 ≡ err e)
        × (writes ((remote env name handler >>= f) p).1.calls ≡ writes p.calls)
  unfolding remote writes
  remote_refused name handler f p x refused same =
      elim (Result-cases (env.rpc_request_answer p.calls name)) [
        | inl (u, sent) ↦ (x, rw (sent, refused) refl, rw (sent, refused) same)
        | inr (e, lost) ↦ (e, rw lost refl, rw lost refl)
      ]

  -- A request to end a meeting whose message names a user who is neither the creator of the stored
  -- meeting nor the host of its room is answered with an error, and no call changes anything,
  -- whatever the token and the answers of the transport.
  pub serve_request-end_meeting-IsDenied :
      (token body : String) (p : Process) (req : EndMeetingReq) (db_info : MeetingInfo)
      → codec.end_req body ≡ ok req
      → let checked = (check_token env t token p).1 in
        let taken = take_with_error env req.meeting_id (called "EndMeeting" checked) in
        taken.0 ≡ ok db_info
        → db_info.creator_user_id ≢ req.user_id
        → host_or_creator db_info (get_room_data env req.meeting_id taken.1).0 ≢ req.user_id
        → IsDenied env gin codec t (end_request token body) p
  unfolding writes
  serve_request-end_meeting-IsDenied token body p req db_info read taken creator host =
      let request = end_request token body in
      let q = (check_token env t token p).1 in
      elim (Result-cases (gin.gin_parse_token t.secret ("" ∷ []) request.path token)) [
        | inr (x, gate) ↦ IsDenied-by_gate env gin codec t request p x gate
        | inl (u, gate) ↦ elim (Result-cases (check_token env t token p).0) [
          | inr (x, refused) ↦
              serve_request-IsDenied env gin codec t request p x (λ e. absurd (cc e))
                (λ e. absurd (cc e)) refused
          | inl (user_id, passed) ↦
              let denied =
                end_meeting_denied env req (called "EndMeeting" q) db_info taken creator host in
              let answer =
                remote_refused "EndMeeting" (end_meeting env req) (λ v. pure no_content) q
                  (coded meeting_auth_check_error) denied.0 denied.1 in
              let served = serve_request-end_meeting token body user_id p req gate read passed in
              (
                answer.0,
                ap (λ r. r.0) served ∙ answer.1,
                ap (λ r. writes r.1.calls) served
                    ∙ (answer.2 ∙ (check_token-ReadsOnly env t token).at p),
              )
        ]
      ]

-- ===== src/Middleware/Login.antt =====
-- A login followed by a request: internal/rpc/user/user.go and internal/api/mw/mw.go together.
use openmeeting_server.Env.{Env}

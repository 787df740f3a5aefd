-- ===== src/Rpc.antt =====
-- A call of one service's procedure from another. The transport may fail on the way there, when the
-- handler has not run, and on the way back, when it has.
use openmeeting_server.Base.{String}
use openmeeting_server.Env
use openmeeting_server.Env.{Env, Exec, pure, ask, ◌>>=◌, ◌>>◌}

unfoldable pub remote : {A : Type 0} → Env → String → Exec A → Exec A
remote env name handler = do
  ask (Env.rpc_request name) (λ h. env.rpc_request_answer h name)
  answer ← handler
  ask (Env.rpc_response name) (λ h. env.rpc_response_answer h name)
  pure answer

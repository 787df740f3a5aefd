-- ===== src/UserStorage/Ids.antt =====
-- The ids of users: `GenerateUserID` of pkg/common/storage/cache/redis/user.go.
use openmeeting_server.Base.{ℕ, ◌<◌, ◌^◌, ◌≡◌, ◌≢◌, String, arith}
use openmeeting_server.Base.Int.{pos}
use openmeeting_server.Decimal.{sprintf_zero_padded-injective}
use openmeeting_server.Result.{ok}
use openmeeting_server.Env
use openmeeting_server.Env.{Env, Process}
use openmeeting_server.UserStorage.{generate_user_id}
use openmeeting_server.Storage.Key.{generate_user_id_key}

-- Two user ids generated from different values of the Redis counter, from 0 up to the largest
-- int64, are different.
pub generate_user_id_unique :
    (env : Env) (p q : Process) (m n : ℕ) {id id' : String}
    → env.incr_answer p.calls generate_user_id_key ≡ ok (pos m)
    → env.incr_answer q.calls generate_user_id_key ≡ ok (pos n)
    → m < 2 ^ 63
    → n < 2 ^ 63
    → (generate_user_id env p).0 ≡ ok id
    → (generate_user_id env q).0 ≡ ok id'
    → m ≢ n
    → id ≢ id'
unfolding generate_user_id
generate_user_id_unique env p q m n {id} {id'} hm hn bm bn g g' ne same = absurd (
    ne (
      sprintf_zero_padded-injective 8 m n (omega arith) (omega arith)
        (cc (rw (hm, Env.continue) at g, rw (hn, Env.continue) at g', same))))

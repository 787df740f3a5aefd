-- ===== src/Storage/Ids.antt =====
-- The ids of meetings: `GenerateMeetingID` of pkg/common/storage/cache/redis/meeting.go.
use openmeeting_server.Base.{ℕ, ◌<◌, ◌^◌, ◌≡◌, ◌≢◌, String, arith}
use openmeeting_server.Base.Int.{pos}
use openmeeting_server.Decimal.{sprintf_zero_padded-injective}
use openmeeting_server.Result.{ok}
use openmeeting_server.Env
use openmeeting_server.Env.{Env, Process}
use openmeeting_server.Storage.{generate_meeting_id}
use openmeeting_server.Storage.Key.{generate_meeting_id_key}

-- Two ids that were generated from different values of the Redis counter are different, for any two
-- values from 0 up to the largest int64.
pub generate_meeting_id_unique :
    (env : Env) (p q : Process) (m n : ℕ) {id id' : String}
    → env.incr_answer p.calls generate_meeting_id_key ≡ ok (pos m)
    → env.incr_answer q.calls generate_meeting_id_key ≡ ok (pos n)
    → m < 2 ^ 63
    → n < 2 ^ 63
    → (generate_meeting_id env p).0 ≡ ok id
    → (generate_meeting_id env q).0 ≡ ok id'
    → m ≢ n
    → id ≢ id'
unfolding generate_meeting_id
generate_meeting_id_unique env p q m n {id} {id'} hm hn bm bn g g' ne same = absurd (
    ne (
      sprintf_zero_padded-injective 9 m n (omega arith) (omega arith)
        (cc (rw (hm, Env.continue) at g, rw (hn, Env.continue) at g', same))))

-- ===== src/Token/RoundTrip.antt =====
-- A token that was created is read back: pkg/common/token/token.go with the documented behaviour of
-- the JWT library.
use openmeeting_server.Base.{
  String, ℕ, ◌+◌, ◌*◌, ◌-◌, ◌<◌, ◌≤◌, ◌^◌, ◌%◌, ◌/◌, false, ◌≡◌, refl, ◌∙◌, if◌then◌else◌, arith,
  ltb, ap,
}
use openmeeting_server.Base.Int.{ℤ, pos, negsuc, int64, ◌+ℤ◌, ◌-ℤ◌, ◌*ℤ◌}
use openmeeting_server.Calendar.{unix, from_unix, add_duration}
use openmeeting_server.Result.{Result, ok, err, token_expired, token_not_valid_yet, token_unknown}
use openmeeting_server.Env.{Env, Process, Claims}
use openmeeting_server.Token.{
  new, build_claims, user_of, check_claims, create_token, get_user_of_token,
}

-- What the program relies on of the JWT library: a text that was signed is parsed with the same
-- secret, and its times are checked.
pub record Verifies (env : Env) : Type 0 where
  pub checked :
      (claims : Claims) (secret text : String) (time : ℤ)
      → env.sign_claims claims secret ≡ ok text
      → env.parse_claims time text secret ≡ check_claims time claims

add_pos : (a b : ℕ) → pos a +ℤ pos b ≡ pos (a + b)
unfolding ◌+ℤ◌
add_pos a b = ground arith

sub_pos : (a b : ℕ) → b ≤ a → pos a -ℤ pos b ≡ pos (a - b)
unfolding ◌-ℤ◌
sub_pos a b h = ground arith

mul_pos : (a b : ℕ) → pos a *ℤ pos b ≡ pos (a * b)
unfolding ◌*ℤ◌
mul_pos a b = ground arith

int64_pos : (a : ℕ) → a < 2 ^ 63 → int64 (pos a) ≡ pos a
unfolding int64
int64_pos a h = ground arith

-- The validity of a token in nanoseconds is the number of days times the length of a day, without
-- overflow, up to 106751 days.
pub new-expires :
    (days : ℕ) (secret : String)
    → days ≤ 106751
    → (new (pos days) secret).expires ≡ pos (days * 86400000000000)
unfolding new
new-expires days secret h =
    rw
      (
        mul_pos days 3600000000000,
        int64_pos (days * 3600000000000) (omega arith),
        mul_pos (days * 3600000000000) 24,
        int64_pos (days * 3600000000000 * 24) (omega arith),
      )
      (ground arith)

unix-from_unix : (s n : ℕ) → s < 2 ^ 62 → unix (from_unix (pos s) n) ≡ pos s
unfolding unix from_unix
unix-from_unix s n h =
    rw
      (
        add_pos s 62135596800,
        int64_pos (s + 62135596800) (omega arith),
        sub_pos (s + 62135596800) 62135596800 (omega arith),
        int64_pos (s + 62135596800 - 62135596800) (omega arith),
      )
      (ground arith)

from_unix-pos :
    (s n : ℕ) → s < 2 ^ 62 → from_unix (pos s) n ≡ record { sec = pos (s + 62135596800); nsec = n }
unfolding from_unix
from_unix-pos s n h = rw (add_pos s 62135596800, int64_pos (s + 62135596800) (omega arith)) refl

unix-pos :
    (s n : ℕ)
    → 62135596800 ≤ s
    → s < 2 ^ 63
    → unix (record { sec = pos s; nsec = n }) ≡ pos (s - 62135596800)
unfolding unix
unix-pos s n lo hi = rw (sub_pos s 62135596800 lo, int64_pos (s - 62135596800) (omega arith)) refl

add_days :
    (s n days : ℕ)
    → s < 2 ^ 62 + 62135596800
    → n < 1000000000
    → days ≤ 106751
    → add_duration (record { sec = pos s; nsec = n }) (pos (days * 86400000000000))
      ≡ record { sec = pos (s + days * 86400); nsec = n }
unfolding add_duration
add_days s n days hs hn hd =
    let whole : days * 86400000000000 / 1000000000 ≡ days * 86400 = omega arith in
    let part : (n + days * 86400000000000 % 1000000000) ≡ n = omega arith in
    let no_carry : n / 1000000000 ≡ 0 = omega arith in
    let same : n % 1000000000 ≡ n = omega arith in
    rw
      (
        part,
        whole,
        no_carry,
        same,
        add_pos s (days * 86400),
        int64_pos (s + days * 86400) (omega arith),
        add_pos (s + days * 86400) 0,
        int64_pos (s + days * 86400 + 0) (omega arith),
      )
      (ground arith)

ltb_zero : (n : ℕ) → ltb n 0 ≡ false
ltb_zero n = ground arith

take_minute :
    (s n : ℕ)
    → 60 ≤ s
    → s < 2 ^ 63
    → add_duration (record { sec = pos s; nsec = n }) (negsuc (60000000000 - 1))
      ≡ record { sec = pos (s - 60); nsec = n }
unfolding add_duration
take_minute s n lo hi =
    rw (sub_pos s 60 lo, int64_pos (s - 60) (omega arith), ltb_zero n) (ground arith)

-- How a token that was issued for a number of days fares at a later or an earlier moment, in seconds.
abbrev pub validity : ℕ → ℕ → ℕ → String → Result String
validity issued days time user_id =
    if ltb time issued
    then err (if ltb (time + 60) issued then token_not_valid_yet else token_unknown)
    else if ltb time (issued + days * 86400)
    then ok user_id
    else err token_expired

user_of-check_claims :
    (issued days time : ℕ) (user_id : String)
    → 60 ≤ issued
    → user_of (
        check_claims (pos time) (record {
          user_id = user_id;
          expires_at = pos (issued + days * 86400);
          issued_at = pos issued;
          not_before = pos (issued - 60);
        }))
      ≡ validity issued days time user_id
unfolding user_of
user_of-check_claims issued days time user_id h = ground arith

module _ (issued nsec : ℕ) (lo : 60 ≤ issued) (hi : issued < 2 ^ 62) (hn : nsec < 1000000000) where
  unix-expiry :
      (days : ℕ) (secret : String)
      → days ≤ 106751
      → unix (add_duration (from_unix (pos issued) nsec) (new (pos days) secret).expires)
        ≡ pos (issued + days * 86400)
  unix-expiry days secret hd =
      rw
        (
          new-expires days secret hd,
          from_unix-pos issued nsec hi,
          add_days (issued + 62135596800) nsec days (omega arith) hn hd,
          unix-pos (issued + 62135596800 + days * 86400) nsec (omega arith) (omega arith),
        )
        (ground arith)

  unix-not_before :
      unix (add_duration (from_unix (pos issued) nsec) (negsuc (60000000000 - 1)))
      ≡ pos (issued - 60)
  unix-not_before =
      rw
        (
          from_unix-pos issued nsec hi,
          take_minute (issued + 62135596800) nsec (omega arith) (omega arith),
          unix-pos (issued + 62135596800 - 60) nsec (omega arith) (omega arith),
        )
        (ground arith)

  build_claims-days :
      (days : ℕ) (secret user_id : String)
      → days ≤ 106751
      → build_claims (new (pos days) secret) user_id (from_unix (pos issued) nsec) ≡ record {
        user_id = user_id;
        expires_at = pos (issued + days * 86400);
        issued_at = pos issued;
        not_before = pos (issued - 60);
      }
  unfolding build_claims
  build_claims-days days secret user_id hd = λ i. record {
    user_id = user_id;
    expires_at = unix-expiry days secret hd i;
    issued_at = unix-from_unix issued nsec hi i;
    not_before = unix-not_before i;
  }

module _ (env : Env) (verifies : Verifies env) where
  -- With a JWT library that reads back what it signed and checks its times, and for moments
  -- between a minute after 1970 and 2^62 seconds after it, a token made for at most 106751 days
  -- gives back its user from the second it was issued until those days are over, and is expired
  -- from then on; a reader whose clock is behind refuses it.
  pub create_token-get_user_of_token :
      (days : ℕ) (secret user_id token : String) (p q : Process) (issued nsec time time_nsec : ℕ)
      → days ≤ 106751
      → 60 ≤ issued
      → issued < 2 ^ 62
      → nsec < 1000000000
      → time < 2 ^ 62
      → env.time_answer p.calls ≡ from_unix (pos issued) nsec
      → env.time_answer q.calls ≡ from_unix (pos time) time_nsec
      → (create_token env (new (pos days) secret) user_id p).0 ≡ ok token
      → (get_user_of_token env (new (pos days) secret) token q).0
        ≡ validity issued days time user_id
  unfolding create_token get_user_of_token
  create_token-get_user_of_token days secret user_id token p q issued nsec time time_nsec hd lo hi
        hn ht now later created =
      let t = new (pos days) secret in
      let claims = build_claims t user_id (env.time_answer p.calls) in
      ap user_of (verifies.checked claims t.secret token (unix (env.time_answer q.calls)) created)
      ∙ ap (λ now. user_of (check_claims now claims))
          (ap unix later ∙ unix-from_unix time time_nsec ht)
      ∙ ap (λ claims. user_of (check_claims (pos time) claims))
          (ap (build_claims t user_id) now
            ∙ build_claims-days issued nsec lo hi hn days secret user_id hd)
      ∙ user_of-check_claims issued days time user_id lo

-- ===== src/Tests/Redis.antt =====
-- The Redis, the transport, the signatures and the transactions of the sample do what the theorems ask of them.
use openmeeting_server.Base.{
  String, List, [], ◌∷◌, Bool, true, false, ◌≡◌, ◌≢◌, refl, ◌==◌, if◌then◌else◌, eq_iff, and_true,
  sym, ap, arith, ◌++◌, ℕ,
}
use openmeeting_server.Base.Int.{ℤ, pos, eqb_ℤ}
use openmeeting_server.Result.{Result, ok, err, record_not_found, plain}
use openmeeting_server.Env
use openmeeting_server.Env.{Env, Call, Claims}
use openmeeting_server.Token.{check_claims}
use openmeeting_server.Token.RoundTrip.{Verifies}
use openmeeting_server.Sessions.{Session, active, closed, state_of, after_call, Faithful}
use openmeeting_server.Middleware.Access.{Available}
use openmeeting_server.Storage.Invalidation.{RunsOnce}
use openmeeting_server.UserService.Registration.{DetectsDuplicates}
use openmeeting_server.Base.Lists.{contains, contains-append, length}
use openmeeting_server.Tests.Sample.{has_duplicates, sample, read_latest, claims, is_sample}

written_read :
    (same : Bool) (w v value : String) (s : Session) (r : Result String)
    → (s ≡ active v → r ≡ ok value → value ≡ v)
    → (if same then active w else s) ≡ active v
    → (if same then ok w else r) ≡ ok value
    → value ≡ v
written_read true w v value s r ih e f = cc (e, f)
written_read false w v value s r ih e f = ih e f

removed_read :
    (same : Bool) (v value : String) (s : Session) (r : Result String)
    → (s ≡ active v → r ≡ ok value → value ≡ v)
    → (if same then closed else s) ≡ active v
    → (if same then err record_not_found else r) ≡ ok value
    → value ≡ v
removed_read true v value s r ih e f = absurd (cc e)
removed_read false v value s r ih e f = ih e f

after_set :
    (key value v : String) (h : List Call)
    → state_of sample key h ≡ active v
    → read_latest key h ≡ ok value
    → value ≡ v
unfolding state_of after_call
after_set key value v [] e f = absurd (cc e)
after_set key value v (Env.set_key k w ttl ∷ h) e f =
    written_read (k == key) w v value (state_of sample key h) (read_latest key h)
      (after_set key value v h) e f
after_set key value v (Env.remove_key k ∷ h) e f =
    removed_read (k == key) v value (state_of sample key h) (read_latest key h)
      (after_set key value v h) e f
after_set key value v (_ ∷ h) e f = after_set key value v h e f

written_closed :
    (same : Bool) (w value : String) (s : Session) (r : Result String)
    → (s ≡ closed → r ≢ ok value)
    → (if same then active w else s) ≡ closed
    → (if same then ok w else r) ≢ ok value
written_closed true w value s r ih e f = absurd (cc e)
written_closed false w value s r ih e f = ih e f

removed_closed :
    (same : Bool) (value : String) (s : Session) (r : Result String)
    → (s ≡ closed → r ≢ ok value)
    → (if same then closed else s) ≡ closed
    → (if same then err record_not_found else r) ≢ ok value
removed_closed true value s r ih e f = absurd (cc f)
removed_closed false value s r ih e f = ih e f

after_remove :
    (key value : String) (h : List Call)
    → state_of sample key h ≡ closed
    → read_latest key h ≢ ok value
unfolding state_of after_call
after_remove key value [] e f = absurd (cc e)
after_remove key value (Env.set_key k w ttl ∷ h) e f =
    written_closed (k == key) w value (state_of sample key h) (read_latest key h)
      (after_remove key value h) e f
after_remove key value (Env.remove_key k ∷ h) e f =
    removed_closed (k == key) value (state_of sample key h) (read_latest key h)
      (after_remove key value h) e f
after_remove key value (_ ∷ h) e f = after_remove key value h e f

pub sample-Faithful : Faithful sample
sample-Faithful = record { after_set = after_set; after_remove = after_remove }

written_back :
    (same : Bool) (w v : String) (s : Session) (r : Result String)
    → (s ≡ active v → r ≡ ok v)
    → (if same then active w else s) ≡ active v
    → (if same then ok w else r) ≡ ok v
written_back true w v s r ih e = cc e
written_back false w v s r ih e = ih e

removed_back :
    (same : Bool) (v : String) (s : Session) (r : Result String)
    → (s ≡ active v → r ≡ ok v)
    → (if same then closed else s) ≡ active v
    → (if same then err record_not_found else r) ≡ ok v
removed_back true v s r ih e = absurd (cc e)
removed_back false v s r ih e = ih e

read_back :
    (h : List Call) (key v : String) → state_of sample key h ≡ active v → read_latest key h ≡ ok v
unfolding state_of after_call
read_back [] key v e = absurd (cc e)
read_back (Env.set_key k w ttl ∷ h) key v e =
    written_back (k == key) w v (state_of sample key h) (read_latest key h) (read_back h key v) e
read_back (Env.remove_key k ∷ h) key v e =
    removed_back (k == key) v (state_of sample key h) (read_latest key h) (read_back h key v) e
read_back (_ ∷ h) key v e = read_back h key v e

-- One second for each call
abbrev pub clock : List Call → ℕ
clock h = length h

pub sample-Available : Available sample clock
sample-Available = record {
  request = λ h name. refl;
  response = λ h name. refl;
  read = λ h key v opened alive. read_back h key v opened;
}

eqb_ℤ_eq : (a b : ℤ) → eqb_ℤ a b ≡ true → a ≡ b
eqb_ℤ_eq a b e = ground arith

signed :
    (same : Bool) (text : String)
    → (if same then ok "TOKEN" else err plain) ≡ ok text
    → (same ≡ true) × (text ≡ "TOKEN")
signed true text e = (refl, cc e)
signed false text e = absurd (cc e)

is_sample-claims : (c : Claims) → is_sample c ≡ true → c ≡ claims
is_sample-claims c e =
    let (who, times) = and_true _ _ e in
    let (expiry, starts) = and_true _ _ times in
    let (issue, start) = and_true _ _ starts in
    λ i. record {
      user_id = (eq_iff c.user_id "u1").0 who i;
      expires_at = eqb_ℤ_eq c.expires_at (pos 1700604800) expiry i;
      issued_at = eqb_ℤ_eq c.issued_at (pos 1700000000) issue i;
      not_before = eqb_ℤ_eq c.not_before (pos 1699999940) start i;
    }

pub sample-Verifies : Verifies sample
sample-Verifies = record {
  checked = λ c secret text time e.
      let (same, is_token) = signed (is_sample c) text e in
      rw is_token (ap (check_claims time) (sym (is_sample-claims c same)));
}

pub sample-RunsOnce : RunsOnce sample
sample-RunsOnce = record { result = λ m p. (m p).0; runs = λ m p. refl; honest = λ m p e. e }

contains_self : (x : String) (before after : List String) → contains x (before ++ x ∷ after) ≡ true
unfolding contains
contains_self x before after = ground (arith, contains-append x before (x ∷ after), eq_iff x x)

has_duplicates_lem :
    (x : String) (before between after : List String)
    → has_duplicates (before ++ x ∷ between ++ x ∷ after) ≡ true
has_duplicates_lem x [] between after = rw (contains_self x between after) refl
has_duplicates_lem x (y ∷ before) between after =
    ground (arith, has_duplicates_lem x before between after)

pub sample-DetectsDuplicates : DetectsDuplicates sample
sample-DetectsDuplicates = record { detects = has_duplicates_lem }

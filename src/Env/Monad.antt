-- ===== src/Env/Monad.antt =====
-- Actions of the program: they run on the calls made so far and on the server's own counter, and what
-- was done before an error stays done.
use openmeeting_server.Base.{ℕ, List, [], ◌∷◌, Bool, true, false, if◌then◌else◌, Option, none, some}
use openmeeting_server.Result.{Err, Result, ok, err, panic}
use openmeeting_server.Env.Calls.{Call, is_write}

pub record Process : Type 0 where
  -- the latest call first
  pub calls : List Call
  -- `LiveKit.index`, the counter of pkg/rtc/livekit
  pub index : ℕ

abbrev pub start : Process
start = record { calls = []; index = 0 }

abbrev pub Exec : Type 0 → Type 0
Exec A = Process → Result A × Process

abbrev pub pure : {A : Type 0} → A → Exec A
pure a p = (ok a, p)

abbrev pub raise : {A : Type 0} → Err → Exec A
raise e p = (err e, p)

abbrev pub lift : {A : Type 0} → Result A → Exec A
lift r p = (r, p)

-- A call: it is recorded, and answered from the calls before it.
abbrev pub ask : {A : Type 0} → Call → (List Call → Result A) → Exec A
ask c answer p = (answer p.calls, record p { calls = c ∷ p.calls })

abbrev pub continue : {A B : Type 0} → Result A → Process → (A → Exec B) → Result B × Process
continue (ok a) p f = f a p
continue (err e) p f = (err e, p)

infixl 5 ◌>>=◌ ◌>>◌
abbrev pub ◌>>=◌ : {A B : Type 0} → Exec A → (A → Exec B) → Exec B
◌>>=◌ m f p = continue (m p).0 (m p).1 f

abbrev pub ◌>>◌ : {A B : Type 0} → Exec A → Exec B → Exec B
◌>>◌ m k p = continue (m p).0 (m p).1 (λ _. k)

-- The result of `m` as a value: what follows decides on its error.
abbrev pub attempt : {A : Type 0} → Exec A → Exec (Result A)
attempt m p = (ok (m p).0, (m p).1)

-- To follow a pointer that may be nil.
abbrev pub deref : {A : Type 0} → Option A → Exec A
deref (some a) = pure a
deref none = raise panic

abbrev pub unless : {A : Type 0} → Bool → Err → Exec A → Exec A
unless true e m = m
unless false e m = raise e

-- The calls that change something, the latest first.
unfoldable pub writes : List Call → List Call
writes [] = []
writes (c ∷ cs) = let rest = writes cs in if is_write c then c ∷ rest else rest

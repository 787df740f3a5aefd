-- ===== src/ReadOnly.antt =====
-- Actions that change nothing outside the process: one rule for each way to build an action, and the
-- reads of the room service, the user service and the storage.
pub mod Services
use openmeeting_server.Base.{List, ◌≡◌, refl, ◌∙◌, Bool, true, false, if◌then◌else◌}
use openmeeting_server.Result.{Err, Result, ok, err}
use openmeeting_server.Env.{
  Call, is_write, Process, Exec, pure, raise, lift, ask, attempt, continue, writes, ◌>>=◌, unless,
}

-- `m` leaves the calls that change something as they are, whether it succeeds or fails.
pub record ReadsOnly {A : Type 0} (m : Exec A) : Type 0 where
  pub at : (p : Process) → writes (m p).1.calls ≡ writes p.calls

module _ {A : Type 0} where
  pub ReadsOnly-pure : (a : A) → ReadsOnly (pure a)
  ReadsOnly-pure a = record { at = λ p. refl }

  pub ReadsOnly-raise : (e : Err) → ReadsOnly (raise {A = A} e)
  ReadsOnly-raise e = record { at = λ p. refl }

  pub ReadsOnly-lift : (r : Result A) → ReadsOnly (lift r)
  ReadsOnly-lift r = record { at = λ p. refl }

  pub ReadsOnly-ask :
      (c : Call) (answer : List Call → Result A) → is_write c ≡ false → ReadsOnly (ask c answer)
  unfolding writes
  ReadsOnly-ask c answer h = record { at = λ p. rw h }

  pub ReadsOnly-attempt : {m : Exec A} → ReadsOnly m → ReadsOnly (attempt m)
  ReadsOnly-attempt h = record { at = λ p. h.at p }

  pub ReadsOnly-unless : (b : Bool) (e : Err) {m : Exec A} → ReadsOnly m → ReadsOnly (unless b e m)
  ReadsOnly-unless true e h = h
  ReadsOnly-unless false e h = ReadsOnly-raise e

  pub ReadsOnly-if :
      (b : Bool) {m n : Exec A} → ReadsOnly m → ReadsOnly n → ReadsOnly (if b then m else n)
  ReadsOnly-if true hm hn = hm
  ReadsOnly-if false hm hn = hn

module _ {A B : Type 0} where
  ReadsOnly-continue :
      (r : Result A) (p : Process) (f : A → Exec B)
      → ((a : A) → ReadsOnly (f a))
      → writes (continue r p f).1.calls ≡ writes p.calls
  ReadsOnly-continue (ok a) p f h = (h a).at p
  ReadsOnly-continue (err e) p f h = refl

  pub ReadsOnly-bind :
      {m : Exec A} {f : A → Exec B}
      → ReadsOnly m
      → ((a : A) → ReadsOnly (f a))
      → ReadsOnly (m >>= f)
  ReadsOnly-bind {m} {f} hm hf = record {
    at = λ p. ReadsOnly-continue (m p).0 (m p).1 f hf ∙ hm.at p;
  }

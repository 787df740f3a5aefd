-- ===== src/Sessions/Keeps.antt =====
-- Actions that write no key: one rule for each way to build an action.
use openmeeting_server.Base.{String, List, ◌∷◌, ◌≡◌, refl, ◌∙◌, Bool, true, false, if◌then◌else◌}
use openmeeting_server.Result.{Result, ok, err, Err}
use openmeeting_server.Env
use openmeeting_server.Env.{
  Env, Call, Process, Exec, pure, raise, lift, ask, attempt, unless, continue, ◌>>=◌,
}
use openmeeting_server.Sessions.{state_of}

-- The state of the key is as before, whatever the outcome.
pub record Keeps (env : Env) (key : String) {A : Type 0} (m : Exec A) : Type 0 where
  pub at : (p : Process) → state_of env key (m p).1.calls ≡ state_of env key p.calls

abbrev pub is_key_write : Call → Bool
is_key_write (Env.set_key _ _ _) = true
is_key_write (Env.remove_key _) = true
is_key_write _ = false

state_of-other :
    (env : Env) (key : String) (c : Call) (h : List Call)
    → is_key_write c ≡ false
    → state_of env key (c ∷ h) ≡ state_of env key h
unfolding state_of
state_of-other env key (Env.set_key k v ttl) h e = absurd (cc e)
state_of-other env key (Env.remove_key k) h e = absurd (cc e)
state_of-other env key _ h e = refl

module _ {env : Env} {key : String} {A : Type 0} where
  pub Keeps-pure : (a : A) → Keeps env key (pure a)
  Keeps-pure a = record { at = λ p. refl }

  pub Keeps-raise : (e : Err) → Keeps env key (raise {A = A} e)
  Keeps-raise e = record { at = λ p. refl }

  pub Keeps-lift : (r : Result A) → Keeps env key (lift r)
  Keeps-lift r = record { at = λ p. refl }

  pub Keeps-ask :
      (c : Call) (answer : List Call → Result A)
      → is_key_write c ≡ false
      → Keeps env key (ask c answer)
  Keeps-ask c answer h = record { at = λ p. state_of-other env key c p.calls h }

  pub Keeps-attempt : {m : Exec A} → Keeps env key m → Keeps env key (attempt m)
  Keeps-attempt h = record { at = λ p. h.at p }

  pub Keeps-unless :
      (b : Bool) (e : Err) {m : Exec A} → Keeps env key m → Keeps env key (unless b e m)
  Keeps-unless true e hm = hm
  Keeps-unless false e hm = record { at = λ p. refl }

  pub Keeps-if :
      (b : Bool) {m n : Exec A}
      → Keeps env key m
      → Keeps env key n
      → Keeps env key (if b then m else n)
  Keeps-if true hm hn = hm
  Keeps-if false hm hn = hn

module _ {env : Env} {key : String} {A B : Type 0} where
  Keeps-continue :
      (r : Result A) (p : Process) (f : A → Exec B)
      → ((a : A) → Keeps env key (f a))
      → state_of env key (continue r p f).1.calls ≡ state_of env key p.calls
  Keeps-continue (ok a) p f h = (h a).at p
  Keeps-continue (err e) p f h = refl

  pub Keeps-bind :
      {m : Exec A} {f : A → Exec B}
      → Keeps env key m
      → ((a : A) → Keeps env key (f a))
      → Keeps env key (m >>= f)
  Keeps-bind {m} {f} hm hf = record { at = λ p. Keeps-continue (m p).0 (m p).1 f hf ∙ hm.at p }

-- ===== src/Yields.antt =====
-- What every success of an action has, by rules on the shape of the action.
use openmeeting_server.Base.{Bool, true, false, ◌≡◌, refl}
use openmeeting_server.Result.{Result, ok, err, Err}
use openmeeting_server.Env.{Process, Exec, pure, unless, continue, ◌>>=◌}

pub record Yields {A : Type 0} (P : A → Type 0) (m : Exec A) : Type 0 where
  pub at : (p : Process) (a : A) → (m p).0 ≡ ok a → P a

-- Nothing is known of the value.
abbrev pub Anything : {A : Type 0} → A → Type 0
Anything a = Unit

pub Yields-Anything : {A : Type 0} (m : Exec A) → Yields Anything m
Yields-Anything m = record { at = λ p a e. tt }

pub Yields-pure : {A : Type 0} {P : A → Type 0} (a : A) → P a → Yields P (pure a)
Yields-pure {A} {P} a h = record { at = λ p b e. let same : a ≡ b = cc e in rw same at h }

bind_at :
    {A B : Type 0} {Q : A → Type 0} {P : B → Type 0} (f : A → Exec B)
    → ((a : A) → Q a → Yields P (f a))
    → (r : Result A) (p : Process) → ((a : A) → r ≡ ok a → Q a)
    → (b : B) → (continue r p f).0 ≡ ok b
    → P b
bind_at f hf (ok a) p hr b e = (hf a (hr a refl)).at p b e
bind_at f hf (err x) p hr b e = absurd (cc e)

pub Yields-bind :
    {A B : Type 0} {Q : A → Type 0} {P : B → Type 0} {m : Exec A} {f : A → Exec B}
    → Yields Q m
    → ((a : A) → Q a → Yields P (f a))
    → Yields P (m >>= f)
Yields-bind {m = m} {f = f} hm hf = record {
  at = λ p b e. bind_at f hf (m p).0 (m p).1 (hm.at p) b e;
}

pub Yields-unless :
    {A : Type 0} {P : A → Type 0} (b : Bool) (e : Err) {m : Exec A}
    → Yields P m
    → Yields P (unless b e m)
Yields-unless true e h = h
Yields-unless false e h = record { at = λ p a r. absurd (cc r) }

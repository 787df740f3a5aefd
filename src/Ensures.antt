-- ===== src/Ensures.antt =====
-- What every success of an action does to the process, by rules on the shape of the action.
use openmeeting_server.Base.{if◌then◌else◌, Bool, true, false, ◌≡◌, refl}
use openmeeting_server.Result.{Result, ok, err, Err}
use openmeeting_server.Env.{Process, Exec, pure, raise, unless, lift, attempt, continue, ◌>>=◌}

-- From the process before, the value, and the process after.
abbrev pub Effect : Type 0 → Type 1
Effect A = Process → A → Process → Type 0

pub record Ensures {A : Type 0} (R : Effect A) (m : Exec A) : Type 0 where
  pub at : (p : Process) (a : A) → (m p).0 ≡ ok a → R p a (m p).1

module _ {A B : Type 0} {R : Effect A} {S : A → Effect B} {T : Effect B} where
  bind_at :
      (f : A → Exec B)
      → ((a : A) → Ensures (S a) (f a))
      → ((p q : Process) (a : A) (b : B) (r : Process) → R p a q → S a q b r → T p b r)
      → (p q : Process) (result : Result A) → ((a : A) → result ≡ ok a → R p a q)
      → (b : B) → (continue result q f).0 ≡ ok b
      → T p b (continue result q f).1
  bind_at f hf join p q (ok a) hm b e = join p q a b (f a q).1 (hm a refl) ((hf a).at q b e)
  bind_at f hf join p q (err x) hm b e = absurd (cc e)

  pub Ensures-bind :
      {m : Exec A} {f : A → Exec B}
      → Ensures R m
      → ((a : A) → Ensures (S a) (f a))
      → ((p q : Process) (a : A) (b : B) (r : Process) → R p a q → S a q b r → T p b r)
      → Ensures T (m >>= f)
  Ensures-bind {m} {f} hm hf join = record {
    at = λ p b e. bind_at f hf join p (m p).1 (m p).0 (hm.at p) b e;
  }

pub Ensures-weaken :
    {A : Type 0} {R S : Effect A} {m : Exec A}
    → Ensures R m
    → ((p : Process) (a : A) (q : Process) → R p a q → S p a q)
    → Ensures S m
Ensures-weaken {m = m} h weaken = record { at = λ p a e. weaken p a (m p).1 (h.at p a e) }

-- The guard holds, if the action succeeds.
pub Ensures-unless :
    {A : Type 0} {R : Effect A} (b : Bool) (e : Err) {m : Exec A}
    → (b ≡ true → Ensures R m)
    → Ensures R (unless b e m)
Ensures-unless true e h = h refl
Ensures-unless false e h = record { at = λ p a r. absurd (cc r) }

-- The value is the one returned, and the process is as before.
abbrev pub Returned : {A : Type 0} → A → Effect A
Returned a p b q = (b ≡ a) × (q ≡ p)

pub Ensures-pure : {A : Type 0} (a : A) → Ensures (Returned a) (pure a)
Ensures-pure a = record { at = λ p b e. (cc e, refl) }

pub Ensures-lift : {A : Type 0} (r : Result A) → Ensures (λ p a q. (r ≡ ok a) × (q ≡ p)) (lift r)
Ensures-lift r = record { at = λ p a e. (e, refl) }

-- The outcome that an attempt returns is the outcome of what it tries.
pub Ensures-attempt :
    {A : Type 0} (m : Exec A) → Ensures (λ p found q. (found ≡ (m p).0) × (q ≡ (m p).1)) (attempt m)
Ensures-attempt m = record { at = λ p found e. (cc e, refl) }

pub Ensures-if :
    {A : Type 0} {R : Effect A} (b : Bool) {m n : Exec A}
    → (b ≡ true → Ensures R m)
    → Ensures R n
    → Ensures R (if b then m else n)
Ensures-if true hm hn = hm refl
Ensures-if false hm hn = hn

pub Ensures-raise : {A : Type 0} {R : Effect A} (e : Err) → Ensures R (raise e)
Ensures-raise e = record { at = λ p a r. absurd (cc r) }

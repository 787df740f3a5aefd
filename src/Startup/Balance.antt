-- ===== src/Startup/Balance.antt =====
-- Resources are given back: rules on the shape of what a process does when it starts.
use openmeeting_server.Base.{Bool, true, false, ◌≡◌, ◌≢◌, refl, ◌∙◌, List, [], ◌∷◌, if◌then◌else◌}
use openmeeting_server.Result.{Result, ok, err, Err}
use openmeeting_server.Startup.{
  Outcome, done, failed, panicked, exited, Launch, pure, fail, crash, continue, lift, note, ask,
  acquire, acquired, defer, finish, ◌>>=◌,
}
use openmeeting_server.Startup.Platform.{
  Event, Resource, opened, closed, open_resources, is_same, listener, discovery_client,
}
use text.Mathlib.TextPositions.{eq_refl}

is_same_refl : (r : Resource) → is_same r r ≡ true
is_same_refl (listener a) = eq_refl a
is_same_refl discovery_client = refl

-- `m` ends with the same resources open as it began, unless the process has exited.
pub record IsBalanced {A : Type 0} (m : Launch A) : Type 0 where
  pub at : (h : List Event) → (m h).0 ≢ exited → open_resources (m h).1 ≡ open_resources h

-- The step opens and closes nothing.
abbrev pub IsPlain : Event → Type 0
IsPlain e = (h : List Event) → open_resources (e ∷ h) ≡ open_resources h

module _ {A : Type 0} where
  pub IsBalanced-pure : (a : A) → IsBalanced (pure a)
  IsBalanced-pure a = record { at = λ h ne. refl }

  pub IsBalanced-fail : (e : Err) → IsBalanced (fail {A = A} e)
  IsBalanced-fail e = record { at = λ h ne. refl }

  pub IsBalanced-crash : IsBalanced (crash {A = A})
  IsBalanced-crash = record { at = λ h ne. refl }

  pub IsBalanced-lift : (r : Result A) → IsBalanced (lift r)
  IsBalanced-lift r = record { at = λ h ne. refl }

  pub IsBalanced-ask :
      (e : Event) (answer : List Event → Result A) → IsPlain e → IsBalanced (ask e answer)
  IsBalanced-ask e answer p = record { at = λ h ne. p h }

  pub IsBalanced-if :
      (b : Bool) {m n : Launch A} → IsBalanced m → IsBalanced n → IsBalanced (if b then m else n)
  IsBalanced-if true hm hn = hm
  IsBalanced-if false hm hn = hn

pub IsBalanced-note : (e : Event) → IsPlain e → IsBalanced (note e)
IsBalanced-note e p = record { at = λ h ne. p h }

module _ {A B : Type 0} where
  continue_at :
      (f : A → Launch B)
      → ((a : A) → IsBalanced (f a))
      → (r : Outcome A) (h k : List Event) → (r ≢ exited → open_resources k ≡ open_resources h)
      → (continue r k f).0 ≢ exited
      → open_resources (continue r k f).1 ≡ open_resources h
  continue_at f hf (done a) h k before ne = (hf a).at k ne ∙ before (λ e. absurd (cc e))
  continue_at f hf (failed e) h k before ne = before (λ e. absurd (cc e))
  continue_at f hf panicked h k before ne = before (λ e. absurd (cc e))
  continue_at f hf exited h k before ne = absurd (ne refl)

  pub IsBalanced-bind :
      {m : Launch A} {f : A → Launch B}
      → IsBalanced m
      → ((a : A) → IsBalanced (f a))
      → IsBalanced (m >>= f)
  IsBalanced-bind {m} {f} hm hf = record { at = λ h. continue_at f hf (m h).0 h (m h).1 (hm.at h) }

module _ {A : Type 0} where
  defer_at :
      (e : Event)
      → IsPlain e
      → (r : Outcome A) (h k : List Event) → (r ≢ exited → open_resources k ≡ open_resources h)
      → (finish (e ∷ []) r k).0 ≢ exited
      → open_resources (finish (e ∷ []) r k).1 ≡ open_resources h
  defer_at e p (done a) h k before ne = p k ∙ before (λ e. absurd (cc e))
  defer_at e p (failed x) h k before ne = p k ∙ before (λ e. absurd (cc e))
  defer_at e p panicked h k before ne = p k ∙ before (λ e. absurd (cc e))
  defer_at e p exited h k before ne = absurd (ne refl)

  pub IsBalanced-defer :
      (e : Event) → IsPlain e → {m : Launch A} → IsBalanced m → IsBalanced (defer e m)
  IsBalanced-defer e p {m} hm = record { at = λ h. defer_at e p (m h).0 h (m h).1 (hm.at h) }

  closed_at :
      (r : Resource) (o : Outcome A) (h k : List Event)
      → (o ≢ exited → open_resources k ≡ r ∷ open_resources h)
      → (finish (closed r ∷ []) o k).0 ≢ exited
      → open_resources (finish (closed r ∷ []) o k).1 ≡ open_resources h
  unfolding open_resources
  closed_at r (done a) h k before ne = rw (before (λ e. absurd (cc e)), is_same_refl r) refl
  closed_at r (failed x) h k before ne = rw (before (λ e. absurd (cc e)), is_same_refl r) refl
  closed_at r panicked h k before ne = rw (before (λ e. absurd (cc e)), is_same_refl r) refl
  closed_at r exited h k before ne = absurd (ne refl)

  acquired_at :
      (r : Resource) {m : Launch A}
      → IsBalanced m
      → (got : Result (Unit {0})) (h : List Event)
      → (continue (acquired r got h).0 (acquired r got h).1 (λ u. defer (closed r) m)).0 ≢ exited
      → open_resources
          (continue (acquired r got h).0 (acquired r got h).1 (λ u. defer (closed r) m)).1
        ≡ open_resources h
  unfolding open_resources
  acquired_at r {m} hm (ok u) h ne =
      closed_at r (m (opened r ∷ h)).0 h (m (opened r ∷ h)).1 (hm.at (opened r ∷ h)) ne
  acquired_at r hm (err e) h ne = refl

  -- What is opened, and closed by a deferred call, is given back.
  pub IsBalanced-acquire :
      (r : Resource) (answer : List Event → Result (Unit {0})) {m : Launch A}
      → IsBalanced m
      → IsBalanced (acquire r answer >>= (λ u. defer (closed r) m))
  IsBalanced-acquire r answer hm = record { at = λ h. acquired_at r hm (answer h) h }

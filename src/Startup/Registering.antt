-- ===== src/Startup/Registering.antt =====
-- What a start registers at the discovery service: rules on the shape of what it does.
use openmeeting_server.Base.{
  List, [], ◌∷◌, Bool, true, false, ◌≡◌, ◌⊎◌, inl, inr, refl, ◌∙◌, if◌then◌else◌, ap,
}
use openmeeting_server.Result.{Result, ok, err}
use openmeeting_server.Startup.{◌>>=◌, pure, defer}
use openmeeting_server.Startup.{
  Launch, Outcome, done, failed, panicked, exited, continue, finish, acquired,
}
use openmeeting_server.Startup.Platform.{Event, Resource, opened, registrations, Registration}

-- From `h` to `k` nothing was registered, or one name, by the step after `before`.
abbrev pub One : (Registration → List Event → Type 0) → List Event → List Event → Type 0
One P h k =
    (registrations k ≡ registrations h)
    ⊎ ((r : Registration) × (before : List Event) × P r before
        × (registrations k ≡ r ∷ registrations h))

-- The step registers nothing.
abbrev pub IsQuiet : Event → Type 0
IsQuiet e = (h : List Event) → registrations (e ∷ h) ≡ registrations h

-- An action that registers nothing
pub record RegistersNone {A : Type 0} (m : Launch A) : Type 0 where
  pub at : (h : List Event) → registrations (m h).1 ≡ registrations h

module _ {P : Registration → List Event → Type 0} where
  pub One-trans : (h k l : List Event) → One P h k → registrations l ≡ registrations k → One P h l
  One-trans h k l (inl e) f = inl (f ∙ e)
  One-trans h k l (inr (r, before, holds, e)) f = inr (r, before, holds, f ∙ e)

  pub One-after : (h k l : List Event) → registrations k ≡ registrations h → One P k l → One P h l
  One-after h k l f (inl e) = inl (e ∙ f)
  One-after h k l f (inr (r, before, holds, e)) = inr (r, before, holds, e ∙ ap (λ x. r ∷ x) f)

  module _ {A B : Type 0} where
    pub One-bind :
        (f : A → Launch B) (o : Outcome A) (h k : List Event)
        → registrations k ≡ registrations h
        → ((a : A) → o ≡ done a → One P k (f a k).1)
        → One P h (continue o k f).1
    One-bind f (done a) h k e next = One-after h k _ e (next a refl)
    One-bind f (failed x) h k e next = inl e
    One-bind f panicked h k e next = inl e
    One-bind f exited h k e next = inl e

    pub One-then :
        (f : A → Launch B)
        → ((a : A) → RegistersNone (f a))
        → (o : Outcome A) (h k : List Event) → One P h k
        → One P h (continue o k f).1
    One-then f quiet (done a) h k one = One-trans h k _ one ((quiet a).at k)
    One-then f quiet (failed x) h k one = one
    One-then f quiet panicked h k one = one
    One-then f quiet exited h k one = one

  pub One-finish :
      {A : Type 0} (e : Event)
      → IsQuiet e
      → (o : Outcome A) (h k : List Event) → One P h k
      → One P h (finish (e ∷ []) o k).1
  One-finish e quiet (done a) h k one = One-trans h k (e ∷ k) one (quiet k)
  One-finish e quiet (failed x) h k one = One-trans h k (e ∷ k) one (quiet k)
  One-finish e quiet panicked h k one = One-trans h k (e ∷ k) one (quiet k)
  One-finish e quiet exited h k one = one

pub RegistersNone-pure : {A : Type 0} (a : A) → RegistersNone (pure a)
RegistersNone-pure a = record { at = λ h. refl }

pub RegistersNone-if :
    {A : Type 0} (b : Bool) {m n : Launch A}
    → RegistersNone m
    → RegistersNone n
    → RegistersNone (if b then m else n)
RegistersNone-if true hm hn = hm
RegistersNone-if false hm hn = hn

continue-registrations :
    {A B : Type 0} (f : A → Launch B)
    → ((a : A) → RegistersNone (f a))
    → (o : Outcome A) (k : List Event) → registrations (continue o k f).1 ≡ registrations k
continue-registrations f hf (done a) k = (hf a).at k
continue-registrations f hf (failed e) k = refl
continue-registrations f hf panicked k = refl
continue-registrations f hf exited k = refl

pub RegistersNone-bind :
    {A B : Type 0} {m : Launch A} {f : A → Launch B}
    → RegistersNone m
    → ((a : A) → RegistersNone (f a))
    → RegistersNone (m >>= f)
RegistersNone-bind {m} {f} hm hf = record {
  at = λ h. continue-registrations f hf (m h).0 (m h).1 ∙ hm.at h;
}

-- What registers at most once, between a resource that is opened and closed again
pub One-acquire :
    {P : Registration → List Event → Type 0} {A : Type 0} (r : Resource) (close : Event)
    → IsQuiet close
    → (m : Launch A) (h : List Event) (got : Result (Unit {0}))
    → One P (opened r ∷ h) (m (opened r ∷ h)).1
    → One P h (continue (acquired r got h).0 (acquired r got h).1 (λ u. defer close m)).1
unfolding registrations
One-acquire r close quiet m h (ok u) one =
    One-after h (opened r ∷ h) (finish (close ∷ []) (m (opened r ∷ h)).0 (m (opened r ∷ h)).1).1
      refl (One-finish close quiet (m (opened r ∷ h)).0 (opened r ∷ h) (m (opened r ∷ h)).1 one)
One-acquire r close quiet m h (err e) one = inl refl

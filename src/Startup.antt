-- ===== src/Startup.antt =====
-- The start of a process: what it asks of the platform, and the monad in which it does. Every step
-- that leaves the process is recorded, the latest first, and answered by a function of the steps
-- before it.
pub mod Platform
pub mod Balance
pub mod Success
pub mod Registering
use openmeeting_server.Base.{List, ◌∷◌, ◌≡◌, refl, ◌⊎◌, inl, inr, ◌++◌, []}
use openmeeting_server.Result.{Result, ok, err, Err}
use openmeeting_server.Startup.Platform.{Event, Resource, opened, refused}

pub data Outcome (A : Type 0) : Type 0 where
  done : A → Outcome A
  failed : Err → Outcome A
  -- a panic, on which deferred calls still run
  panicked : Outcome A
  -- `program.ExitWithError`: the process is gone, and deferred calls do not run
  exited : Outcome A

abbrev pub Launch : Type 0 → Type 0
Launch A = List Event → Outcome A × List Event

abbrev pub pure : {A : Type 0} → A → Launch A
pure a h = (done a, h)

abbrev pub fail : {A : Type 0} → Err → Launch A
fail e h = (failed e, h)

abbrev pub crash : {A : Type 0} → Launch A
crash h = (panicked, h)

abbrev pub exit : {A : Type 0} → Launch A
exit h = (exited, h)

abbrev pub continue :
    {A B : Type 0} → Outcome A → List Event → (A → Launch B) → Outcome B × List Event
continue (done a) h f = f a h
continue (failed e) h f = (failed e, h)
continue panicked h f = (panicked, h)
continue exited h f = (exited, h)

infixl 5 ◌>>=◌ ◌>>◌
abbrev pub ◌>>=◌ : {A B : Type 0} → Launch A → (A → Launch B) → Launch B
◌>>=◌ m f h = continue (m h).0 (m h).1 f

abbrev pub ◌>>◌ : {A B : Type 0} → Launch A → Launch B → Launch B
◌>>◌ m k h = continue (m h).0 (m h).1 (λ _. k)

abbrev pub of_result : {A : Type 0} → Result A → Outcome A
of_result (ok a) = done a
of_result (err e) = failed e

abbrev pub lift : {A : Type 0} → Result A → Launch A
lift r h = (of_result r, h)

-- A step that is recorded.
abbrev pub note : Event → Launch (Unit {0})
note e h = (done tt, e ∷ h)

abbrev pub ask : {A : Type 0} → Event → (List Event → Result A) → Launch A
ask e answer h = (of_result (answer h), e ∷ h)

-- What opens a resource, or is refused it.
abbrev pub acquired : Resource → Result (Unit {0}) → List Event → Outcome (Unit {0}) × List Event
acquired r (ok u) h = (done u, opened r ∷ h)
acquired r (err e) h = (failed e, refused r ∷ h)

abbrev pub acquire : Resource → (List Event → Result (Unit {0})) → Launch (Unit {0})
acquire r answer h = acquired r (answer h) h

-- `defer`: the call is made however the rest ends, unless the process has exited.
abbrev pub finish : {A : Type 0} → List Event → Outcome A → List Event → Outcome A × List Event
finish calls exited h = (exited, h)
finish calls (done a) h = (done a, calls ++ h)
finish calls (failed e) h = (failed e, calls ++ h)
finish calls panicked h = (panicked, calls ++ h)

abbrev pub defer : {A : Type 0} → Event → Launch A → Launch A
defer call m h = finish (call ∷ []) (m h).0 (m h).1

pub Outcome-cases :
    {A : Type 0} (r : Outcome A)
    → ((a : A) × (r ≡ done a)) ⊎ ((e : Err) × (r ≡ failed e)) ⊎ (r ≡ panicked) ⊎ (r ≡ exited)
Outcome-cases (done a) = inl (a, refl)
Outcome-cases (failed e) = inr (inl (e, refl))
Outcome-cases panicked = inr (inr (inl refl))
Outcome-cases exited = inr (inr (inr refl))

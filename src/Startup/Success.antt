-- ===== src/Startup/Success.antt =====
-- What has happened when the steps of a start have succeeded.
use openmeeting_server.Base.{List, ◌≡◌, refl}
use openmeeting_server.Result.{Result, ok, err}
use openmeeting_server.Startup.{
  Launch, Outcome, done, failed, panicked, exited, continue, finish, of_result,
}
use openmeeting_server.Startup.Platform.{Event}

module _ {A B : Type 0} where
  pub continue-done :
      (f : A → Launch B) (o : Outcome A) (k : List Event) {b : B}
      → (continue o k f).0 ≡ done b
      → (a : A) × (o ≡ done a) × ((f a k).0 ≡ done b)
  continue-done f (done a) k e = (a, refl, e)
  continue-done f (failed x) k e = absurd (cc e)
  continue-done f panicked k e = absurd (cc e)
  continue-done f exited k e = absurd (cc e)

pub finish-done :
    {A : Type 0} (es : List Event) (o : Outcome A) (k : List Event) {a : A}
    → (finish es o k).0 ≡ done a
    → o ≡ done a
finish-done es (done a) k e = e
finish-done es (failed x) k e = absurd (cc e)
finish-done es panicked k e = absurd (cc e)
finish-done es exited k e = absurd (cc e)

pub of_result-eq-done : {A : Type 0} (r : Result A) {a : A} → of_result r ≡ done a → r ≡ ok a
of_result-eq-done (ok a) e = cc e
of_result-eq-done (err x) e = absurd (cc e)

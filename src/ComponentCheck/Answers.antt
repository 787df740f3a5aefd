-- ===== src/ComponentCheck/Answers.antt =====
-- What the outcome of the checks says of the components.
use openmeeting_server.Base.{
  String, List, [], true, false, ℕ, zero, suc, ◌+◌, ◌≤◌, ◌<◌, ◌≡◌, inl, inr, refl, sym, ◌∙◌, ap,
  Bool-cases, eq_iff, arith,
}
use openmeeting_server.Base.Lists.{contains, count}
use openmeeting_server.Config
use openmeeting_server.ComponentCheck.{
  Attempt, Components, Checking, checks, check_each, round, rounds, perform_checks,
}
use openmeeting_server.ComponentCheck.Rounds.{
  outcomes, Tracked, check_each-kept, check_each-Tracked,
}
use openmeeting_server.ComponentCheck.Steps.{check_each-flag, check_each-failing}

abbrev begun : Checking
begun = record { checks_done = []; all_success = true; attempts = [] }

begun-Tracked : Tracked begun
unfolding outcomes contains
begun-Tracked x = refl

begun_failures : (x : String) (n : ℕ) → outcomes false x begun.attempts + n ≡ n
unfolding outcomes
begun_failures x n = omega arith

-- No check has two entries.
checks_once : (discovery : Config.Discovery) (x : String) → count x (checks discovery) ≤ 1
unfolding checks count
checks_once discovery x = ground (
  arith,
  eq_iff "Mongo" x,
  eq_iff "Redis" x,
  eq_iff "Etcd" x,
  eq_iff "Mongo" "Redis",
  eq_iff "Mongo" "Etcd",
  eq_iff "Redis" "Etcd",
)

module _ (c : Components) where
  -- The order of a range over the map: each key once
  abbrev pub Ranges : List String → Type 0
  Ranges names =
      (attempts : List Attempt) (x : String)
      → count x (c.range_order attempts names) ≡ count x names

  module _ (names : List String) (ranges : Ranges names) where
    round_kept :
        (x : String) (s : Checking)
        → contains x (round c names s).checks_done ≡ false
        → (contains x s.checks_done ≡ false)
          × (outcomes false x (round c names s).attempts
              ≡ outcomes false x s.attempts + count x names)
    unfolding round
    round_kept x s h =
        let (before, failures) =
          check_each-kept c (c.range_order s.attempts names) x (record s { all_success = true })
            h in
        (before, failures ∙ ap (λ (n : ℕ). outcomes false x s.attempts + n) (ranges s.attempts x))

    rounds-Tracked : (left : ℕ) (s : Checking) → Tracked s → Tracked (rounds c names left s).1
    unfolding rounds round
    rounds-Tracked zero s t = t
    rounds-Tracked (suc left) s t =
        let next =
          check_each-Tracked c (c.range_order s.attempts names) (record s { all_success = true })
            t in
        elim (Bool-cases (round c names s).all_success) [
          | inl passed ↦ rw passed next
          | inr failed ↦ rw failed (rounds-Tracked left (round c names s) next)
        ]

    round_passed :
        (s : Checking) (x : String)
        → (round c names s).all_success ≡ true
        → 0 < count x names
        → contains x (round c names s).checks_done ≡ true
    unfolding round
    round_passed s x passed member =
        let order = c.range_order s.attempts names in
        let begun : Checking = record s { all_success = true } in
        elim (Bool-cases (contains x (check_each c order begun).checks_done)) [
          | inl here ↦ here
          | inr missing ↦ absurd (
              cc (
                passed,
                check_each-flag c order x begun (omega (arith, ranges s.attempts x)) missing,
              ))
        ]

    rounds-passed :
        (left : ℕ) (s : Checking) (x : String)
        → (rounds c names left s).0 ≡ true
        → 0 < count x names
        → contains x (rounds c names left s).1.checks_done ≡ true
    unfolding rounds
    rounds-passed zero s x h member = absurd (cc h)
    rounds-passed (suc left) s x h member = elim (Bool-cases (round c names s).all_success) [
      | inl passed ↦ rw passed (round_passed s x passed member)
      | inr failed ↦ rw failed (rounds-passed left (round c names s) x (rw failed at h) member)
    ]

    round_failing :
        (s : Checking)
        → ((x : String) → count x names ≤ 1)
        → (round c names s).all_success ≡ false
        → (x : String) × (count x names ≡ 1) × (contains x (round c names s).checks_done ≡ false)
    unfolding round
    round_failing s once failed =
        let (x, counted, undone) =
          check_each-failing c (c.range_order s.attempts names) (record s { all_success = true })
            (λ y. omega (arith, ranges s.attempts y, once y)) refl failed in
        (x, sym (ranges s.attempts x) ∙ counted, undone)

    rounds_kept :
        (left : ℕ) (s : Checking) (x : String)
        → contains x (rounds c names left s).1.checks_done ≡ false
        → contains x s.checks_done ≡ false
    unfolding rounds
    rounds_kept zero s x h = h
    rounds_kept (suc left) s x h = elim (Bool-cases (round c names s).all_success) [
      | inl passed ↦ (round_kept x s (rw passed at h)).0
      | inr failed ↦ (round_kept x s (rounds_kept left (round c names s) x (rw failed at h))).0
    ]

    -- As many rounds are left as the name fails once more.
    rounds-failed :
        (left : ℕ) (s : Checking)
        → 0 < left
        → ((x : String) → count x names ≤ 1)
        → (rounds c names left s).0 ≡ false
        → (x : String) × (count x names ≡ 1)
          × (contains x (rounds c names left s).1.checks_done ≡ false)
          × (outcomes false x (rounds c names left s).1.attempts
              ≡ outcomes false x s.attempts + left)
    unfolding rounds
    rounds-failed zero s some_left once h = absurd (omega arith)
    rounds-failed (suc zero) s some_left once h = elim (Bool-cases (round c names s).all_success) [
      | inl passed ↦ absurd (let e : true ≡ false = rw passed at h in cc e)
      | inr failed ↦
          let (x, counted, undone) = round_failing s once failed in
          rw failed (
            x,
            counted,
            undone,
            (round_kept x s undone).1 ∙ ap (λ (n : ℕ). outcomes false x s.attempts + n) counted,
          )
    ]
    rounds-failed (suc (suc left)) s some_left once h =
        elim (Bool-cases (round c names s).all_success) [
          | inl passed ↦ absurd (let e : true ≡ false = rw passed at h in cc e)
          | inr failed ↦
              let (x, counted, undone, failures) =
                rounds-failed (suc left) (round c names s) (omega arith) once (rw failed at h) in
              let (before, here) =
                round_kept x s (rounds_kept (suc left) (round c names s) x undone) in
              rw failed (x, counted, undone, omega (arith, failures, here, counted))
        ]

  -- When performChecks returns no error, each of its components has answered exactly once, so that
  -- none is asked again after its answer, as long as a range over a map visits each key once.
  pub perform_checks_passed :
      (discovery : Config.Discovery) (max_retry : ℕ) (x : String)
      → Ranges (checks discovery)
      → (perform_checks c discovery max_retry).0 ≡ true
      → 0 < count x (checks discovery)
      → outcomes true x (perform_checks c discovery max_retry).1.attempts ≡ 1
  unfolding perform_checks
  perform_checks_passed discovery max_retry x ranges passed member =
      let names = checks discovery in
      rounds-Tracked names ranges max_retry begun begun-Tracked x
      ∙ rw (rounds-passed names ranges max_retry begun x passed member) refl

  -- When performChecks, with at least one round, returns an error, some component never answered
  -- and was asked in each of the rounds, as long as a range over a map visits each key once.
  pub perform_checks_failed :
      (discovery : Config.Discovery) (max_retry : ℕ)
      → Ranges (checks discovery)
      → 0 < max_retry
      → (perform_checks c discovery max_retry).0 ≡ false
      → (x : String) × (count x (checks discovery) ≡ 1)
        × (outcomes true x (perform_checks c discovery max_retry).1.attempts ≡ 0)
        × (outcomes false x (perform_checks c discovery max_retry).1.attempts ≡ max_retry)
  unfolding perform_checks
  perform_checks_failed discovery max_retry ranges some_rounds failed =
      let names = checks discovery in
      let (x, counted, undone, failures) =
        rounds-failed names ranges max_retry begun some_rounds (checks_once discovery) failed in
      (
        x,
        counted,
        rounds-Tracked names ranges max_retry begun begun-Tracked x ∙ rw undone refl,
        failures ∙ begun_failures x max_retry,
      )

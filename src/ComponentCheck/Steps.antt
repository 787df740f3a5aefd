-- ===== src/ComponentCheck/Steps.antt =====
-- What the steps of a round say of the names that have answered, and of the flag.
use openmeeting_server.Base.{
  String, List, [], ◌∷◌, Bool, true, false, ◌≤◌, ◌<◌, ◌==◌, ◌≡◌, inl, inr, refl, ◌∙◌, Bool-cases,
  eq_iff, arith,
}
use openmeeting_server.Base.Lists.{contains, count}
use openmeeting_server.ComponentCheck.{Components, Checking, answered, check_one, check_each}
use openmeeting_server.ComponentCheck.Rounds.{check_one-own, check_one-other, check_each-kept}

answered_flag :
    (name : String) (b : Bool) (s : Checking)
    → (answered name b s).all_success ≡ false
    → s.all_success ≡ true
    → (answered name b s).checks_done ≡ s.checks_done
answered_flag name true s h t = absurd (cc (h, t))
answered_flag name false s h t = refl

answered_stays :
    (name : String) (b : Bool) (s : Checking)
    → s.all_success ≡ false
    → (answered name b s).all_success ≡ false
answered_stays name true s h = h
answered_stays name false s h = refl

module _ (c : Components) where
  check_one-stays :
      (name : String) (s : Checking)
      → s.all_success ≡ false
      → (check_one c name s).all_success ≡ false
  unfolding check_one
  check_one-stays name s h = elim (Bool-cases (contains name s.checks_done)) [
    | inl old ↦ rw old h
    | inr new ↦ rw new (answered_stays name (c.answers s.attempts name) s h)
  ]

  check_each-stays :
      (names : List String) (s : Checking)
      → s.all_success ≡ false
      → (check_each c names s).all_success ≡ false
  unfolding check_each
  check_each-stays [] s h = h
  check_each-stays (name ∷ names) s h =
      check_each-stays names (check_one c name s) (check_one-stays name s h)

  -- A name that is not done after its steps has lowered the flag.
  pub check_each-flag :
      (names : List String) (x : String) (s : Checking)
      → 0 < count x names
      → contains x (check_each c names s).checks_done ≡ false
      → (check_each c names s).all_success ≡ false
  unfolding check_each count
  check_each-flag [] x s some_steps h = absurd (omega arith)
  check_each-flag (name ∷ names) x s some_steps h = elim (Bool-cases (name == x)) [
    | inl same ↦ elim (check_one-own c x s) [
      | inl old ↦
          let now : contains x (check_each c names (check_one c x s)).checks_done ≡ false =
            rw ((eq_iff name x).0 same) at h in
          absurd (cc (old, (check_each-kept c names x (check_one c x s) now).0))
      | inr (still, new, failures, flag) ↦
          rw ((eq_iff name x).0 same) (check_each-stays names (check_one c x s) flag)
    ]
    | inr other ↦ check_each-flag names x (check_one c name s) (rw other at some_steps) h
  ]

  -- A name without a step is done if it was done.
  check_each-absent :
      (names : List String) (x : String) (s : Checking)
      → count x names ≡ 0
      → contains x (check_each c names s).checks_done ≡ contains x s.checks_done
  unfolding check_each count
  check_each-absent [] x s none_left = refl
  check_each-absent (name ∷ names) x s none_left = elim (Bool-cases (name == x)) [
    | inl same ↦ absurd (ground (arith, none_left))
    | inr other ↦
        check_each-absent names x (check_one c name s) (rw other at none_left)
        ∙ (check_one-other c name x s (λ e. absurd (cc (other, (eq_iff name x).1 e)))).0
  ]

  check_one-failed :
      (name : String) (s : Checking)
      → s.all_success ≡ true
      → (check_one c name s).all_success ≡ false
      → contains name (check_one c name s).checks_done ≡ false
  unfolding check_one
  check_one-failed name s before after = elim (Bool-cases (contains name s.checks_done)) [
    | inl old ↦
        let unchanged : s.all_success ≡ false = rw old at after in absurd (cc (before, unchanged))
    | inr new ↦
        rw (new, answered_flag name (c.answers s.attempts name) s (rw new at after) before) new
  ]

  -- A flag that was lowered shows a name that is not done, if no name has two steps.
  pub check_each-failing :
      (names : List String) (s : Checking)
      → ((x : String) → count x names ≤ 1)
      → s.all_success ≡ true
      → (check_each c names s).all_success ≡ false
      → (x : String) × (count x names ≡ 1) × (contains x (check_each c names s).checks_done ≡ false)
  unfolding check_each count
  check_each-failing [] s once before after = absurd (cc (before, after))
  check_each-failing (name ∷ names) s once before after =
      elim (Bool-cases (check_one c name s).all_success) [
        | inl still ↦
            let (x, counted, undone) =
              check_each-failing names (check_one c name s) (λ y. ground (arith, once y)) still
                after in
            (x, ground (arith, once x, counted), undone)
        | inr lowered ↦
            let absent : count name names ≡ 0 = ground (arith, once name, eq_iff name name) in
            (
              name,
              ground (arith, absent, eq_iff name name),
              check_each-absent names name (check_one c name s) absent
                  ∙ check_one-failed name s before lowered,
            )
      ]

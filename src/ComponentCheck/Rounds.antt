-- ===== src/ComponentCheck/Rounds.antt =====
-- The attempts of the loop: what each step does to the names that have answered.
use openmeeting_server.Base.{
  String, List, [], ◌∷◌, Bool, true, false, ℕ, suc, ◌+◌, ◌==◌, if◌then◌else◌, ◌≡◌, ◌≢◌, ◌⊎◌, inl,
  inr, refl, sym, ◌∙◌, Bool-cases, eq_iff, arith,
}
use openmeeting_server.Base.Lists.{contains, count}
use openmeeting_server.ComponentCheck.{
  Attempt, Components, Checking, answered, check_one, check_each,
}

-- How often a component was asked with this outcome
unfoldable pub outcomes : Bool → String → List Attempt → ℕ
outcomes b x [] = 0
outcomes true x (a ∷ more) =
    let rest = outcomes true x more in
    if a.name == x then (if a.passed then suc rest else rest) else rest
outcomes false x (a ∷ more) =
    let rest = outcomes false x more in
    if a.name == x then (if a.passed then rest else suc rest) else rest

-- A name has answered once if it is among those that are done, and never otherwise.
abbrev pub Tracked : Checking → Type 0
Tracked s = (x : String) → outcomes true x s.attempts ≡ (if contains x s.checks_done then 1 else 0)

answered-Tracked :
    (name : String) (b : Bool) (s : Checking)
    → contains name s.checks_done ≡ false
    → Tracked s
    → Tracked (answered name b s)
unfolding outcomes contains
answered-Tracked name true s fresh t x = ground (arith, t x, t name, eq_iff name x)
answered-Tracked name false s fresh t x = ground (arith, t x, eq_iff name x)

answered-other :
    (name x : String) (b : Bool) (s : Checking)
    → name ≢ x
    → (contains x (answered name b s).checks_done ≡ contains x s.checks_done)
      × (outcomes false x (answered name b s).attempts ≡ outcomes false x s.attempts)
unfolding contains outcomes
answered-other name x true s other = (ground (arith, eq_iff name x), ground (arith, eq_iff name x))
answered-other name x false s other = (refl, ground (arith, eq_iff name x))

answered-own :
    (x : String) (b : Bool) (s : Checking)
    → contains x s.checks_done ≡ false
    → (contains x (answered x b s).checks_done ≡ true)
      ⊎ ((contains x (answered x b s).checks_done ≡ false)
          × (contains x s.checks_done ≡ false)
          × (outcomes false x (answered x b s).attempts ≡ outcomes false x s.attempts + 1)
          × ((answered x b s).all_success ≡ false))
unfolding contains outcomes
answered-own x true s fresh = inl (ground (arith, eq_iff x x))
answered-own x false s fresh = inr (fresh, fresh, ground (arith, eq_iff x x), refl)

module _ (c : Components) where
  check_one-Tracked : (name : String) (s : Checking) → Tracked s → Tracked (check_one c name s)
  unfolding check_one
  check_one-Tracked name s t = elim (Bool-cases (contains name s.checks_done)) [
    | inl old ↦ rw old t
    | inr new ↦ rw new (answered-Tracked name (c.answers s.attempts name) s new t)
  ]

  pub check_each-Tracked :
      (names : List String) (s : Checking) → Tracked s → Tracked (check_each c names s)
  unfolding check_each
  check_each-Tracked [] s t = t
  check_each-Tracked (name ∷ names) s t =
      check_each-Tracked names (check_one c name s) (check_one-Tracked name s t)

  -- One step at a name that is not the one in question changes nothing of that one.
  pub check_one-other :
      (name x : String) (s : Checking)
      → name ≢ x
      → (contains x (check_one c name s).checks_done ≡ contains x s.checks_done)
        × (outcomes false x (check_one c name s).attempts ≡ outcomes false x s.attempts)
  unfolding check_one
  check_one-other name x s other = elim (Bool-cases (contains name s.checks_done)) [
    | inl old ↦ rw old (refl, refl)
    | inr new ↦ rw new (answered-other name x (c.answers s.attempts name) s other)
  ]

  pub check_one-new :
      (x : String) (s : Checking)
      → contains x s.checks_done ≡ false
      → check_one c x s ≡ answered x (c.answers s.attempts x) s
  unfolding check_one
  check_one-new x s new = rw new refl

  -- One step at the name in question: it is done afterwards, or it has failed once more.
  pub check_one-own :
      (x : String) (s : Checking)
      → (contains x (check_one c x s).checks_done ≡ true)
        ⊎ ((contains x (check_one c x s).checks_done ≡ false)
            × (contains x s.checks_done ≡ false)
            × (outcomes false x (check_one c x s).attempts ≡ outcomes false x s.attempts + 1)
            × ((check_one c x s).all_success ≡ false))
  unfolding check_one
  check_one-own x s = elim (Bool-cases (contains x s.checks_done)) [
    | inl old ↦ rw old (inl old)
    | inr new ↦ rw (check_one-new x s new) (answered-own x (c.answers s.attempts x) s new)
  ]

  check_one-own_kept :
      (x : String) (s : Checking)
      → contains x (check_one c x s).checks_done ≡ false
      → (contains x s.checks_done ≡ false)
        × (outcomes false x (check_one c x s).attempts ≡ outcomes false x s.attempts + 1)
  check_one-own_kept x s h = elim (check_one-own x s) [
    | inl old ↦ absurd (cc (h, old))
    | inr (still, new, failures, flag) ↦ (new, failures)
  ]

  -- What a step at `name` leaves of `x`, in one line for each case
  check_one-kept :
      (name x : String) (s : Checking)
      → contains x (check_one c name s).checks_done ≡ false
      → (contains x s.checks_done ≡ false)
        × (outcomes false x (check_one c name s).attempts
            ≡ outcomes false x s.attempts + (if name == x then 1 else 0))
  check_one-kept name x s h = elim (Bool-cases (name == x)) [
    | inl same ↦ let e = (eq_iff name x).0 same in rw (same, e) (check_one-own_kept x s (rw e at h))
    | inr other ↦
        let (kept, failures) =
          check_one-other name x s (λ e. absurd (cc (other, (eq_iff name x).1 e))) in
        rw other (sym kept ∙ h, omega (arith, failures))
  ]

  -- A name that is not done after the steps was not done before, and has failed at each of its steps.
  pub check_each-kept :
      (names : List String) (x : String) (s : Checking)
      → contains x (check_each c names s).checks_done ≡ false
      → (contains x s.checks_done ≡ false)
        × (outcomes false x (check_each c names s).attempts
            ≡ outcomes false x s.attempts + count x names)
  unfolding check_each count
  check_each-kept [] x s h = (h, omega arith)
  check_each-kept (name ∷ names) x s h =
      let (later, failures) = check_each-kept names x (check_one c name s) h in
      let (before, failed_here) = check_one-kept name x s later in
      (before, ground (arith, failures, failed_here))

-- ===== src/Result.antt =====
-- Errors as values. `errs.Wrap` and `errs.WrapMsg` add a message and keep the error, so they are not
-- written; an error that the program only passes on is the one that it was given.
use openmeeting_server.Base.{◌≡◌, ◌⊎◌, inl, inr, refl, ℕ, Bool, true, false, List, none, some}
use openmeeting_server.Base.Lists.{get_elem?}

pub data Err : Type 0 where
  -- `errs.ErrRecordNotFound`, `errs.ErrArgs` and the token errors of the same package
  record_not_found args token_expired token_malformed token_not_valid_yet token_unknown : Err
  -- an error of pkg/common/servererrs, by its code
  coded : ℕ → Err
  -- an error of a service outside the program; the flag says that its code is twirp's NotFound
  remote : Bool → Err
  -- a plain `errs.New` of the program
  plain : Err
  -- a loop did not end
  hang : Err
  -- a nil pointer was followed, or an index was out of range
  panic : Err

pub data Result {ℓ} (A : Type ℓ) : Type ℓ where
  ok : A → Result A
  err : Err → Result A

-- `errors.Is(err, errs.ErrRecordNotFound)`
abbrev pub is_record_not_found : Err → Bool
is_record_not_found record_not_found = true
is_record_not_found _ = false

-- `LiveKit.IsNotFound`
unfoldable pub is_not_found : Err → Bool
is_not_found (remote found) = found
is_not_found _ = false

-- An index out of range is a panic.
unfoldable pub element_at : {A : Type 0} → List A → ℕ → Result A
element_at xs i = elim (get_elem? xs i) [ none ↦ err panic | some x ↦ ok x ]

-- To split on a computed result and keep the equation.
pub Result-cases : {A : Type 0} (r : Result A) → ((a : A) × (r ≡ ok a)) ⊎ ((e : Err) × (r ≡ err e))
Result-cases (ok a) = inl (a, refl)
Result-cases (err e) = inr (e, refl)

-- ===== src/Base.antt =====
-- The names that every module shares: those of the libraries, passed on, the Boolean tests, and the
-- lists and integers over the native numbers in the modules below.
mod Tests
pub mod Int
pub mod Lists
pub use Tests.*
pub use Prim.Native.Nat.{ℕ, zero, suc, ◌+◌, ◌-◌, ◌*◌, ◌/◌, ◌%◌, ◌^◌, ◌≤◌, ◌<◌}
pub use Prim.Native.String.{String}
pub use mathlib.Core.Path.{◌≡◌, refl, sym, ap, ◌∙◌}
pub use mathlib.Core.Logic.{◌≢◌, ◌↔◌, ◌⊎◌, inl, inr}
pub use mathlib.Core.Bool.{Bool, true, false, ◌&&◌, ◌||◌, not}
pub use mathlib.Core.Option.{Option, none, some}
pub use mathlib.Core.List.{List, [], ◌∷◌, ◌++◌, map}
pub use native.Mathlib.Omega.{arith}
pub use text.Mathlib.Text.{◌==◌}
pub use text.Mathlib.TextEquality.{eq_iff}

pub differs_iff : (a b : String) → (not (a == b) ≡ true) ↔ (a ≢ b)
differs_iff a b = elim (Bool-cases (a == b)) [
  | inl e ↦ (λ h. absurd (cc (h, e)), λ ne. absurd (ne ((eq_iff a b).0 e)))
  | inr e ↦ (λ h same. absurd (cc (e, (eq_iff a b).1 same)), λ ne. rw e refl)
]

pub and_true : (a b : Bool) → (a && b) ≡ true → (a ≡ true) × (b ≡ true)
and_true true b e = (refl, e)
and_true false b e = absurd (cc e)

pub eqb_eq : (a b : ℕ) → eqb a b ≡ true → a ≡ b
eqb_eq a b e = ground arith

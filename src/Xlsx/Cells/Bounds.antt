-- ===== src/Xlsx/Cells/Bounds.antt =====
-- The bounds of the integers that cells become.
use native.Mathlib.Nat.{pow-suc, mod-lt, one-le-pow}
use openmeeting_server.Base.{
  String, ℕ, suc, ◌-◌, ◌*◌, ◌^◌, ◌≤◌, ◌<◌, ◌≡◌, Option, none, some, Bool-cases, inl, inr, arith,
  leb, ap, ◌∙◌, sym,
}
use openmeeting_server.Base.Int.{ℤ, pos, negsuc, sub_ℕ}
use openmeeting_server.Result.{ok}
use openmeeting_server.Xlsx.Strconv.{parse_int, parse_uint}
use openmeeting_server.Xlsx.Cells.{
  set_int, set_uint, set_float, Value, int, uint, float, text, bool, other, truncate, set_value,
}

-- Between -limit and limit - 1.
abbrev pub Under : ℕ → ℤ → Type 0
Under limit (pos n) = n < limit
Under limit (negsuc n) = n < limit

-- The value of an integer field is one of its bits.
abbrev pub Fits : Value → Type 0
Fits (int bits i) = (1 ≤ bits) × Under (2 ^ (bits - 1)) i
Fits (uint bits n) = n < 2 ^ bits
Fits _ = Unit {0}

sub_ℕ-Under : (limit r : ℕ) → r < 2 * limit → Under limit (sub_ℕ r limit)
sub_ℕ-Under limit r h = elim (Bool-cases (leb limit r)) [
  | inl e ↦ rw e (ground arith)
  | inr e ↦ rw e (ground arith)
]

double_pow : (bits : ℕ) → 1 ≤ bits → 2 ^ bits ≡ 2 * 2 ^ (bits - 1)
double_pow bits h =
    (let same : bits ≡ suc (bits - 1) = omega arith in ap (λ n. 2 ^ n) same)
    ∙ omega (arith, pow-suc 2 (bits - 1))

truncate-Under : (bits : ℕ) (i : ℤ) → 1 ≤ bits → Under (2 ^ (bits - 1)) (truncate bits i)
unfolding truncate
truncate-Under bits i h =
    sub_ℕ-Under (2 ^ (bits - 1)) _
      (omega (arith, double_pow bits h, mod-lt _ (one-le-pow bits 2 (omega arith))))

Fits-ok : (w v : Value) → Fits w → ok w ≡ ok v → Fits v
Fits-ok w v h e = (let same : w ≡ v = cc e in rw (sym same) h)

module _ (to_lower : String → String) (parse_float : ℕ → String → Option ℕ)
    (to_float32 : ℕ → ℕ) where
  set_int-Fits :
      (bits : ℕ) (old : ℤ) (r : Option ℤ)
      → Fits (int bits old)
      → Fits (set_int to_lower parse_float to_float32 bits old r)
  set_int-Fits bits old none h = h
  set_int-Fits bits old (some i) h = (h.0, truncate-Under bits i h.0)

  set_uint-Fits :
      (bits old : ℕ) (r : Option ℕ)
      → Fits (uint bits old)
      → Fits (set_uint to_lower parse_float to_float32 bits old r)
  set_uint-Fits bits old none h = h
  set_uint-Fits bits old (some n) h = mod-lt n (one-le-pow bits 2 (omega arith))

  set_float-Fits :
      (bits old : ℕ) (r : Option ℕ) → Fits (set_float to_lower parse_float to_float32 bits old r)
  set_float-Fits bits old none = tt
  set_float-Fits bits old (some n) = tt

  -- An integer field has a value of its bits after SetValue, if it had one before, whatever the
  -- cell.
  pub set_value-Fits :
      (field v : Value) (cell : String)
      → Fits field
      → set_value to_lower parse_float to_float32 field cell ≡ ok v
      → Fits v
  unfolding set_value
  set_value-Fits (int bits i) v cell h e = Fits-ok _ v (set_int-Fits bits i (parse_int 64 cell) h) e
  set_value-Fits (uint bits n) v cell h e =
      Fits-ok _ v (set_uint-Fits bits n (parse_uint 64 cell) h) e
  set_value-Fits (text old) v cell h e = Fits-ok (text cell) v tt e
  set_value-Fits (float bits old) v cell h e =
      Fits-ok _ v (set_float-Fits bits old (parse_float 64 cell)) e
  set_value-Fits (bool old) v cell h e = absurd (cc e)
  set_value-Fits other v cell h e = absurd (cc e)

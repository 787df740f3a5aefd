-- ===== src/Decimal.antt =====
-- `fmt.Sprintf("%09d", n)` of an int64, as pkg/common/storage/cache/redis builds its ids.
use Prim.Native.Char.{Char, code}
use native.Mathlib.Nat.{pow-suc}
use openmeeting_server.Base.{
  ℕ, zero, suc, ◌+◌, ◌-◌, ◌*◌, ◌/◌, ◌%◌, ◌^◌, ◌<◌, ◌≡◌, refl, String, List, [], ◌∷◌, none, some,
  eqb, if◌then◌else◌, arith, ap, sym, ◌∙◌, Bool-cases, inl, inr,
}
use openmeeting_server.Base.Int.{ℤ, pos, negsuc}
use openmeeting_server.Base.Lists.{get_elem?}

abbrev digit_chars : List Char
digit_chars = "0" ∷ "1" ∷ "2" ∷ "3" ∷ "4" ∷ "5" ∷ "6" ∷ "7" ∷ "8" ∷ "9" ∷ []

digit : ℕ → Char
digit d = elim (get_elem? digit_chars d) [ none ↦ "0" | some c ↦ c ]

-- The digits of `n` in front of `rest`; an int64 has at most 19.
digits_of : ℕ → ℕ → String → String
digits_of zero n rest = rest
digits_of (suc f) n rest =
    let more = digits_of f (n / 10) (String.◌∷◌ (digit (n % 10)) rest) in
    if eqb n 0 then rest else more

-- At least `width` digits.
padded : ℕ → ℕ → String → String
padded zero n rest = digits_of 20 n rest
padded (suc width) n rest = padded width (n / 10) (String.◌∷◌ (digit (n % 10)) rest)

-- The sign counts as one of the places.
unfoldable pub sprintf_zero_padded : ℕ → ℤ → String
unfolding padded digits_of digit
sprintf_zero_padded width (pos n) = padded width n ""
sprintf_zero_padded width (negsuc n) = String.◌∷◌ "-" (padded (width - 1) (suc n) "")

nine : sprintf_zero_padded 9 (pos 42) ≡ "000000042"
unfolding sprintf_zero_padded
nine = refl

nine_wide : sprintf_zero_padded 9 (pos 12345678901) ≡ "12345678901"
unfolding sprintf_zero_padded
nine_wide = refl

-- The number that digits stand for, read after `acc`.
read : ℕ → String → ℕ
read acc String.[] = acc
read acc (String.◌∷◌ c s) = read (acc * 10 + (code c - 48)) s

code-digit : (d : ℕ) → d < 10 → code (digit d) - 48 ≡ d
unfolding digit
code-digit zero h = refl
code-digit (suc zero) h = refl
code-digit (suc (suc zero)) h = refl
code-digit (suc (suc (suc zero))) h = refl
code-digit (suc (suc (suc (suc zero)))) h = refl
code-digit (suc (suc (suc (suc (suc zero))))) h = refl
code-digit (suc (suc (suc (suc (suc (suc zero)))))) h = refl
code-digit (suc (suc (suc (suc (suc (suc (suc zero))))))) h = refl
code-digit (suc (suc (suc (suc (suc (suc (suc (suc zero)))))))) h = refl
code-digit (suc (suc (suc (suc (suc (suc (suc (suc (suc zero))))))))) h = refl
code-digit (suc (suc (suc (suc (suc (suc (suc (suc (suc (suc d)))))))))) h = absurd (omega arith)

read-digit :
    (n : ℕ) (rest : String) → read (n / 10) (String.◌∷◌ (digit (n % 10)) rest) ≡ read n rest
unfolding read
read-digit n rest = ap (λ a. read a rest) (omega (arith, code-digit (n % 10) (omega arith)))

read-digits_of : (f n : ℕ) (rest : String) → n < 10 ^ f → read 0 (digits_of f n rest) ≡ read n rest
unfolding digits_of
read-digits_of zero n rest h = ap (λ a. read a rest) (omega arith)
read-digits_of (suc f) n rest h = elim (Bool-cases (eqb n 0)) [
  | inl e ↦ rw e (ap (λ a. read a rest) (ground arith))
  | inr e ↦ rw e (
      read-digits_of f (n / 10) (String.◌∷◌ (digit (n % 10)) rest) (omega (arith, pow-suc 10 f))
      ∙ read-digit n rest)
]

read-padded :
    (width n : ℕ) (rest : String) → n < 10 ^ 20 → read 0 (padded width n rest) ≡ read n rest
unfolding padded
read-padded zero n rest h = read-digits_of 20 n rest h
read-padded (suc width) n rest h =
    read-padded width (n / 10) (String.◌∷◌ (digit (n % 10)) rest) (omega arith) ∙ read-digit n rest

-- Numbers below 10^20, so all of int64, have different texts.
pub sprintf_zero_padded-injective :
    (width m n : ℕ)
    → m < 10 ^ 20
    → n < 10 ^ 20
    → sprintf_zero_padded width (pos m) ≡ sprintf_zero_padded width (pos n)
    → m ≡ n
unfolding sprintf_zero_padded read
sprintf_zero_padded-injective width m n hm hn e =
    sym (read-padded width m "" hm) ∙ ap (read 0) e ∙ read-padded width n "" hn

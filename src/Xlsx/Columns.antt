-- ===== src/Xlsx/Columns.antt =====
-- The names of columns are read back.
use Prim.Native.Char.{Char, code}
use Prim.Native.String.{◌++◌}
use native.Mathlib.Nat.{pow-suc}
use text.Mathlib.TextLemmas.{cons-append, nil-append, append-nil}
use openmeeting_server.Base.{
  eqb_eq, String, ℕ, zero, suc, ◌+◌, ◌-◌, ◌*◌, ◌/◌, ◌^◌, ◌<◌, ◌≤◌, List, [], ◌∷◌, Bool, true, false,
  eqb, ltb, leb, ◌&&◌, ◌≡◌, refl, sym, ◌∙◌, ap, arith, Bool-cases, inl, inr, ltb→lt, ltb_false→le,
  and_true,
}
use openmeeting_server.Base.Int.{pos}
use openmeeting_server.Result.{Result, ok, err, element_at}
use openmeeting_server.Xlsx.{last_digit, slices, digits, join, join_all, num2_az}

-- The number of a column by its letters, in base 26 with the digits 1 to 26.
unfoldable pub column_number : ℕ → String → ℕ
column_number acc String.[] = acc
column_number acc (String.◌∷◌ c s) = column_number (acc * 26 + (code c - 64)) s

abbrev value : List ℕ → ℕ
value [] = 0
value (d ∷ ds) = d + 26 * value ds

abbrev AllDigits : List ℕ → Type 0
AllDigits [] = Unit {0}
AllDigits (d ∷ ds) = (1 ≤ d) × (d ≤ 26) × AllDigits ds

leb_le : (a b : ℕ) → leb a b ≡ true → a ≤ b
leb_le a b e = ground arith

leb_lt : (a b : ℕ) → leb a b ≡ false → b < a
leb_lt a b e = ground arith

below_power : (n num e : ℕ) → n ≤ num / 26 → num < 26 ^ suc e → n < 26 ^ e
below_power n num e le lt = omega (arith, pow-suc 26 e)

last_digit-bounds :
    (num : ℕ)
    → 26 < num
    → (1 ≤ last_digit num)
      × (last_digit num ≤ 26)
      × (last_digit num + 26 * ((num - last_digit num) / 26) ≡ num)
      × (1 ≤ (num - last_digit num) / 26)
      × ((num - last_digit num) / 26 ≤ num / 26)
unfolding last_digit
last_digit-bounds num h = ground arith

-- The rounds of the loop end, and the digits stand for the number.
digits-value :
    (fuel num : ℕ)
    → 26 < num
    → num < 26 ^ suc fuel
    → (ds : List ℕ) × (digits fuel num ≡ ok ds) × (value ds ≡ num) × AllDigits ds
unfolding digits
digits-value zero num lo hi = absurd (omega arith)
digits-value (suc fuel) num lo hi =
    let (least, most, sum, left, smaller) = last_digit-bounds num lo in
    let next = (num - last_digit num) / 26 in
    elim (Bool-cases (leb next 26)) [
      | inl e ↦ (
        last_digit num ∷ next ∷ [],
        rw e refl,
        omega arith,
        (least, most, (left, leb_le _ 26 e, tt)),
      )
      | inr e ↦
          let (ds, run, same, each) =
            digits-value fuel next (leb_lt _ 26 e) (below_power next num (suc fuel) smaller hi) in
          (
            last_digit num ∷ ds,
            rw (e, run) refl,
            ap (λ v. last_digit num + 26 * v) same ∙ sum,
            (least, most, each),
          )
    ]

-- A text of the one letter with the number `n + 1`.
is_letter : ℕ → Result String → Bool
is_letter n (ok (String.◌∷◌ c String.[])) = eqb (code c) (n + 65)
is_letter n _ = false

letters_right : ℕ → Bool
letters_right zero = true
letters_right (suc n) =
    let rest = letters_right n in is_letter n (element_at slices (suc n)) && rest

all_letters : letters_right 26 ≡ true
unfolding letters_right is_letter element_at
all_letters = refl

letter_at :
    (n d : ℕ) → letters_right n ≡ true → d < n → is_letter d (element_at slices (suc d)) ≡ true
unfolding letters_right
letter_at zero d e h = absurd (omega arith)
letter_at (suc n) d e h =
    let (last, others) = and_true (is_letter n (element_at slices (suc n))) (letters_right n) e in
    elim (Bool-cases (ltb d n)) [
      | inl lt ↦ letter_at n d others (ground arith)
      | inr ge ↦ (let same : d ≡ n = ground arith in rw same last)
    ]

one_letter :
    (c : Char) (acc : ℕ) (str : String)
    → column_number acc (String.◌∷◌ c "" ++ str) ≡ column_number (acc * 26 + (code c - 64)) str
unfolding column_number
one_letter c acc str =
    ap (column_number acc) (cons-append c "" str ∙ ap (String.◌∷◌ c) (nil-append str))

column_number-letter :
    (d acc : ℕ) (str : String) (r : Result String)
    → is_letter d r ≡ true
    → (letter : String) × (r ≡ ok letter)
      × (column_number acc (letter ++ str) ≡ column_number (acc * 26 + suc d) str)
unfolding is_letter column_number
column_number-letter d acc str (ok (String.◌∷◌ c String.[])) e = (
  String.◌∷◌ c String.[],
  refl,
  one_letter c acc str ∙ ap (λ n. column_number n str) (omega (arith, eqb_eq (code c) (d + 65) e)),
)
column_number-letter d acc str (ok (String.◌∷◌ c (String.◌∷◌ b s))) e = absurd (cc e)
column_number-letter d acc str (ok String.[]) e = absurd (cc e)
column_number-letter d acc str (err x) e = absurd (cc e)

join-column_number :
    (ds : List ℕ) (str : String)
    → AllDigits ds
    → (name : String) × (join ds str ≡ ok name)
      × (column_number 0 name ≡ column_number (value ds) str)
unfolding join
join-column_number [] str h = (str, refl, refl)
join-column_number (zero ∷ ds) str h = absurd (omega (arith, h.0))
join-column_number (suc d ∷ ds) str (least, most, each) =
    let (letter, found, read) =
      column_number-letter d (value ds) str (element_at slices (suc d))
        (letter_at 26 d all_letters (omega arith)) in
    let (name, made, same) = join-column_number ds (letter ++ str) each in
    (
      name,
      ap (λ r. elim r [ ok letter ↦ join ds (letter ++ str) | err e ↦ err e ]) found ∙ made,
      same ∙ read ∙ ap (λ n. column_number n str) (omega arith),
    )

column_number-slices :
    (num : ℕ)
    → num ≤ 26
    → (name : String) × (element_at slices num ≡ ok name) × (column_number 0 name ≡ num)
unfolding column_number element_at
column_number-slices zero h = ("", refl, refl)
column_number-slices (suc d) h =
    let (letter, found, read) =
      column_number-letter d 0 "" (element_at slices (suc d))
        (letter_at 26 d all_letters (omega arith)) in
    (letter, found, ap (column_number 0) (sym (append-nil letter)) ∙ read ∙ omega arith)

-- Every int64 that is not negative has a column name by Num2AZ, within thirteen rounds of its
-- loop, and the name reads back to the number in base 26 with the digits A to Z.
pub num2_az-column_number :
    (num : ℕ)
    → num < 2 ^ 63
    → (name : String) × (num2_az (pos num) ≡ ok name) × (column_number 0 name ≡ num)
unfolding num2_az join_all column_number
num2_az-column_number num h = elim (Bool-cases (ltb 26 num)) [
  | inl big ↦
      let (ds, run, same, each) = digits-value 13 num (ltb→lt 26 num big) (omega arith) in
      let (name, made, read) = join-column_number ds "" each in
      (name, rw big (ap join_all run ∙ made), read ∙ same)
  | inr small ↦
      let (name, found, read) = column_number-slices num (ltb_false→le 26 num small) in
      (name, rw small found, read)
]

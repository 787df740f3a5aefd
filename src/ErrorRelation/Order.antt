-- ===== src/ErrorRelation/Order.antt =====
-- What a call of `Add` adds to the relation.
use openmeeting_server.Base.{
  eqb_eq, ℕ, List, [], ◌∷◌, Bool, true, false, ◌||◌, ◌&&◌, eqb, if◌then◌else◌, ◌≡◌, refl, sym, ◌∙◌,
  ap, Bool-cases, inl, inr,
}
use openmeeting_server.Result.{ok}
use openmeeting_server.ErrorRelation.{
  Relation, children, contains_code, add_children, add_each, add, is,
}

-- The first code stands in the list with the second one somewhere after it.
unfoldable pub precedes : ℕ → ℕ → List ℕ → Bool
precedes p c [] = false
precedes p c (x ∷ xs) = (eqb p x && contains_code c xs) || precedes p c xs

or_false : (a b : Bool) → a ≡ (a || (b && false || false))
or_false true b = refl
or_false false true = refl
or_false false false = refl

or_assoc : (a b c : Bool) → ((a || b) || c) ≡ (a || (b || c))
or_assoc true b c = refl
or_assoc false b c = refl

if_or : (a b c : Bool) → (if a then true else (b || c)) ≡ ((if a then true else b) || c)
if_or true b c = refl
if_or false b c = refl

children-add_children :
    (x p c : ℕ) (xs : List ℕ) (m : Relation)
    → children (add_children x xs m p) c ≡ (children (m p) c || (eqb p x && contains_code c xs))
unfolding add_children
children-add_children x p c xs m = elim (Bool-cases (eqb p x)) [
  | inl e ↦ rw e (ap (λ y. children (m y) c || contains_code c xs) (sym (eqb_eq p x e)))
  | inr e ↦ rw e (or_false (children (m p) c) false)
]

children-add_each :
    (p c : ℕ) (xs : List ℕ) (m : Relation)
    → children (add_each xs m p) c ≡ (children (m p) c || precedes p c xs)
unfolding add_each precedes contains_code
children-add_each p c [] m = or_false (children (m p) c) false
children-add_each p c (x ∷ []) m = or_false (children (m p) c) (eqb p x)
children-add_each p c (x ∷ y ∷ ys) m =
    children-add_each p c (y ∷ ys) (add_children x (y ∷ ys) m)
    ∙ ap (λ b. b || precedes p c (y ∷ ys)) (children-add_children x p c (y ∷ ys) m)
    ∙ or_assoc (children (m p) c) (eqb p x && contains_code c (y ∷ ys)) (precedes p c (y ∷ ys))

-- After Add a code is a kind of a parent when it was one before, or when it stands after the
-- parent in the codes that were added.
pub is-add :
    (codes : List ℕ) (m m' : Relation) (p c : ℕ)
    → add codes m ≡ ok m'
    → is m' p c ≡ (is m p c || precedes p c codes)
unfolding is add
is-add [] m m' p c e = absurd (cc e)
is-add (x ∷ []) m m' p c e = absurd (cc e)
is-add (x ∷ y ∷ ys) m m' p c e =
    let same : add_each (x ∷ y ∷ ys) m ≡ m' = cc e in
    ap (λ f. if eqb p c then true else children (f p) c) (sym same)
    ∙ ap (λ b. if eqb p c then true else b) (children-add_each p c (x ∷ y ∷ ys) m)
    ∙ if_or (eqb p c) (children (m p) c) (precedes p c (x ∷ y ∷ ys))

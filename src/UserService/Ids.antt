-- ===== src/UserService/Ids.antt =====
-- What makes an id of a user valid for `UserRegister` of internal/rpc/user/user.go.
use Prim.Native.Char.{code}
use openmeeting_server.Base.{
  String, ◌≢◌, ◌≡◌, refl, differs_iff, and_true, arith, Bool, true, false, not, eqb, Bool-cases,
  inl, inr,
}
use openmeeting_server.UserService.{has_char, is_valid_id}

-- No character is a colon.
abbrev pub HasNoColon : String → Type 0
HasNoColon String.[] = Unit
HasNoColon (String.◌∷◌ c s) = (code c ≢ b':') × HasNoColon s

-- Not empty, and with no colon
abbrev pub IsUserId : String → Type 0
IsUserId user_id = (user_id ≢ "") × HasNoColon user_id

pub false_of_not : (b : Bool) → not b ≡ true → b ≡ false
false_of_not true e = absurd (cc e)
false_of_not false e = refl

has_char-HasNoColon : (s : String) → has_char b':' s ≡ false → HasNoColon s
unfolding has_char
has_char-HasNoColon String.[] e = tt
has_char-HasNoColon (String.◌∷◌ c s) e = elim (Bool-cases (eqb (code c) b':')) [
  | inl colon ↦ absurd (cc (rw colon at e))
  | inr other ↦ (ground arith, has_char-HasNoColon s (rw other at e))
]

pub is_valid_id-IsUserId : (user_id : String) → is_valid_id user_id ≡ true → IsUserId user_id
unfolding is_valid_id
is_valid_id-IsUserId user_id e =
    let (filled, plain) = and_true _ _ e in
    ((differs_iff user_id "").0 filled, has_char-HasNoColon user_id (false_of_not _ plain))

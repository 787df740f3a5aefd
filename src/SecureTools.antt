-- ===== src/SecureTools.antt =====
-- pkg/common/securetools/securetools.go: salts and hashes of passwords.
use Prim.Native.String.{◌++◌}
use openmeeting_server.Base.{ℕ, zero, suc, String, ◌+◌}
use openmeeting_server.Result.{ok}
use openmeeting_server.Env
use openmeeting_server.Env.{◌>>=◌, Env, Exec, pure, ask}

abbrev pub charset : String
charset = "abcdefghijklmnopqrstuvwxyzABCDEFGHIJKLMNOPQRSTUVWXYZ0123456789"

-- `charset[i]`; an index past the end is a panic, and the random number is below the length.
unfoldable pub char_at : String → ℕ → String
char_at String.[] i = ""
char_at (String.◌∷◌ c s) zero = String.◌∷◌ c ""
char_at (String.◌∷◌ c s) (suc i) = char_at s i

-- `n` characters from the `i`-th draw on.
unfoldable pub salt_from : (ℕ → ℕ) → ℕ → ℕ → String
unfolding char_at
salt_from draw zero i = ""
salt_from draw (suc n) i = char_at charset (draw i) ++ salt_from draw n (i + 1)

module _ (env : Env) where
  unfoldable pub generate_salt : Exec String
  unfolding salt_from
  generate_salt = ask Env.random (λ h. ok (salt_from (env.random_answer h 62) 16 0))

  unfoldable pub verify_password : String → String → String
  verify_password password salt = env.md5_hex (password ++ salt)

  -- The hash and the salt.
  unfoldable pub hash_password : String → Exec (String × String)
  unfolding generate_salt
  hash_password password = do salt ← generate_salt; pure (env.md5_hex (password ++ salt), salt)

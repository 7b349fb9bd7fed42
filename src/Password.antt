-- ===== src/Password.antt =====
-- `encrypt_password` and `password_check` of reference-monitor/utils/utils.c. SHA-256 is the
-- kernel's: a function from strings to digests, whose bytes are bytes.
pub mod Check
pub mod Hex
pub mod Keeps
pub mod Stops
use reference_monitor.Base.{
  All, Bool, List, Option, [], if◌then◌else◌, ltb, none, not, some, ℕ, ◌%◌, ◌+◌, ◌/◌, ◌<◌, ◌==◌,
  ◌^◌, ◌∷◌,
}
use reference_monitor.Base.Int.{eacces, eagain, enomem, pos, ℤ}
use reference_monitor.Blacklist.{UserCopy}
use reference_monitor.CString.{c_str, str_eq}
use reference_monitor.Monitor.{Monitor}
use reference_monitor.Run.{Cmd, bad_free, done, fail, null_deref, overrun, pure, ◌>>=◌, ◌>>◌}

pub record Sha256 : Type 0 where
  pub digest : List ℕ → List ℕ
  pub bytes : (s : List ℕ) → All (λ b. b < 256) (digest s)

-- A `char *`: NULL, a buffer with no terminator in it, or a string.
pub data CharPtr : Type 0 where
  null_ptr : CharPtr
  unterminated : CharPtr
  holds : List ℕ → CharPtr

unfoldable pub of_buffer : List ℕ → CharPtr
of_buffer bytes = elim (c_str bytes) [ none ↦ unterminated | some s ↦ holds s ]

-- What the kernel answers: the transform, the descriptor, the digest's buffer, the status of
-- `crypto_shash_digest`, the result's buffer, and what the variable `digest` holds before it is set.
pub record HashEnv : Type 0 where
  pub transform : Bool
  pub desc : Bool
  pub digest_buffer : Bool
  pub status : ℕ
  pub result : Bool
  pub stale_digest : ℕ

hex_digit : ℕ → ℕ
hex_digit n = if ltb n 10 then 48 + n else 87 + n

-- `sprintf(&result[i * 2], "%02x", digest[i])` for each byte of the digest
unfoldable pub hex : List ℕ → List ℕ
unfolding hex_digit
hex [] = []
hex (b ∷ bs) = hex_digit (b / 16) ∷ hex_digit (b % 16) ∷ hex bs

-- `none` is a NULL result. A failed descriptor leads to `if (digest) kfree(digest)` before `digest`
-- is set.
unfoldable pub encrypt_password :
    {S : Type 0} → Sha256 → HashEnv → CharPtr → Cmd S (Option (List ℕ))
encrypt_password sha e password =
    if not e.transform
    then pure none
    else if not e.desc
    then (if e.stale_digest == 0 then pure none else fail bad_free)
    else if not e.digest_buffer
    then pure none
    else elim password [
      | null_ptr ↦ fail null_deref
      | unterminated ↦ fail overrun
      | holds s ↦
          if not (e.status == 0)
          then pure none
          else if e.result
          then pure (some (hex (sha.digest s)))
          else pure none
    ]

pub record PasswordEnv : Type 0 where
  pub buffer : Bool
  pub copy : UserCopy
  pub hash : HashEnv

-- `strcmp(rf->password, encrypted) != 0`, where either may be NULL
compare_passwords : Option (List ℕ) → Option (List ℕ) → Cmd Monitor ℤ
compare_passwords none given = fail null_deref
compare_passwords (some stored) none = fail null_deref
compare_passwords (some stored) (some given) =
    if str_eq stored given then pure (pos 0) else pure eacces

get_password : Cmd Monitor (Option (List ℕ))
get_password m = done m.password m

unfoldable pub password_check : Sha256 → PasswordEnv → Cmd Monitor ℤ
unfolding compare_passwords get_password
password_check sha e =
    if not e.buffer
    then pure enomem
    else if not ((e.copy.left % 2 ^ 32) == 0)
    then pure eagain
    else (do
      given ← encrypt_password sha e.hash (of_buffer e.copy.bytes)
      stored ← get_password
      compare_passwords stored given)

-- ===== src/Password/Check.antt =====
-- Which passwords `password_check` lets pass.
use reference_monitor.Base.{
  Bool-cases, List, ap, false, false≢true, if◌then◌else◌, inl, inr, refl, some, sym, true, ℕ, ◌↔◌,
  ◌∙◌, ◌≡◌, ◌⊎◌,
}
use reference_monitor.Base.Int.{eacces, pos, ℤ}
use reference_monitor.CString.{c_str, str_eq, str_eq_iff}
use reference_monitor.Monitor.{Monitor}
use reference_monitor.Password.{
  PasswordEnv, Sha256, encrypt_password, hex, of_buffer, password_check,
}
use reference_monitor.Password.Hex.{hex_injective}
use reference_monitor.Run.{done}

-- The kernel gives all the memory, the digest is computed, and the caller's buffer holds `s`.
pub record Answered (e : PasswordEnv) (s : List ℕ) : Type 0 where
  pub buffer : e.buffer ≡ true
  pub copied : e.copy.left ≡ 0
  pub terminated : c_str e.copy.bytes ≡ some s
  pub transform : e.hash.transform ≡ true
  pub desc : e.hash.desc ≡ true
  pub digest_buffer : e.hash.digest_buffer ≡ true
  pub status : e.hash.status ≡ 0
  pub result : e.hash.result ≡ true

module _ (sha : Sha256) where
  encrypt_lem :
      {S : Type 0} (e : PasswordEnv) (s : List ℕ) (st : S)
      → Answered e s
      → encrypt_password sha e.hash (of_buffer e.copy.bytes) st
        ≡ done (some (hex (sha.digest s))) st
  unfolding encrypt_password of_buffer
  encrypt_lem e s st a = rw (a.transform, a.desc, a.digest_buffer, a.terminated, a.status, a.result)

  pub compared :
      (e : PasswordEnv) (m : Monitor) (s : List ℕ) (stored : List ℕ)
      → Answered e s
      → m.password ≡ some stored
      → password_check sha e m
        ≡ (if str_eq stored (hex (sha.digest s)) then done (pos 0) m else done eacces m)
  unfolding password_check
  compared e m s stored a kept =
      rw (a.buffer, a.copied, encrypt_lem e s m a, kept)
        (elim (Bool-cases (str_eq stored (hex (sha.digest s)))) [ inl h ↦ rw h | inr h ↦ rw h ])

  -- When the kernel answers every call and the monitor keeps the printed digest of `secret`,
  -- `password_check` changes nothing and returns 0 for a string with the digest of `secret`, and
  -- -EACCES for any other.
  pub password_check_lem :
      (e : PasswordEnv) (m : Monitor) (s secret : List ℕ)
      → Answered e s
      → m.password ≡ some (hex (sha.digest secret))
      → (r : ℤ) × (password_check sha e m ≡ done r m)
        × ((r ≡ pos 0) ↔ (sha.digest s ≡ sha.digest secret))
        × ((r ≡ pos 0) ⊎ (r ≡ eacces))
  password_check_lem e m s secret a kept =
      elim (Bool-cases (str_eq (hex (sha.digest secret)) (hex (sha.digest s)))) [
        | inl same ↦ (
          pos 0,
          compared e m s _ a kept ∙ rw same,
          (
            λ _. sym (hex_injective _ _ (sha.bytes secret) (sha.bytes s) ((str_eq_iff _ _).0 same)),
            λ _. refl,
          ),
          inl refl,
        )
        | inr differ ↦ (
          eacces,
          compared e m s _ a kept ∙ rw differ,
          (λ h. cc, λ h. differs differ h),
          inr refl,
        )
      ]
    where
      differs :
          str_eq (hex (sha.digest secret)) (hex (sha.digest s)) ≡ false
          → sha.digest s ≡ sha.digest secret
          → eacces ≡ pos 0
      differs d h =
          let alike =
            (str_eq_iff (hex (sha.digest secret)) (hex (sha.digest s))).1 (ap hex (sym h)) in
          absurd (false≢true (sym d ∙ alike))

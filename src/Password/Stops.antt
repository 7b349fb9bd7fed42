-- ===== src/Password/Stops.antt =====
-- The password check uses no fuel: it never ends for want of it.
use reference_monitor.Base.{
  Bool-cases, List, Option, arith, false, inl, inr, none, refl, some, ℕ, ◌%◌, ◌==◌, ◌^◌, ◌≡◌,
}
use reference_monitor.Monitor.{Monitor}
use reference_monitor.Password.{
  CharPtr, HashEnv, PasswordEnv, Sha256, compare_passwords, encrypt_password, get_password, holds,
  null_ptr, of_buffer, password_check, unterminated,
}
use reference_monitor.Run.{hangs, hangs-bind}

module _ (sha : Sha256) where
  hashed-stops :
      (e : HashEnv) (p : CharPtr) (m : Monitor) → hangs (encrypt_password sha e p m) ≡ false
  unfolding encrypt_password
  hashed-stops e null_ptr m = ground arith
  hashed-stops e unterminated m = ground arith
  hashed-stops e (holds t) m = ground arith

  compare-stops : (a b : Option (List ℕ)) (m : Monitor) → hangs (compare_passwords a b m) ≡ false
  unfolding compare_passwords
  compare-stops none b m = refl
  compare-stops (some a) none m = refl
  compare-stops (some a) (some b) m = ground arith

  pub password_check-stops :
      (e : PasswordEnv) (m : Monitor) → hangs (password_check sha e m) ≡ false
  unfolding password_check get_password
  password_check-stops e m = elim (Bool-cases e.buffer) [
    | inl b ↦ elim (Bool-cases ((e.copy.left % 2 ^ 32) == 0)) [
      | inl c ↦
          rw (b, c)
            (hangs-bind (encrypt_password sha e.hash (of_buffer e.copy.bytes) m) _
              (hashed-stops e.hash (of_buffer e.copy.bytes) m)
              (λ given s. compare-stops s.password given s))
      | inr c ↦ rw (b, c)
    ]
    | inr b ↦ rw b
  ]

-- ===== src/Password/Keeps.antt =====
-- The password check changes nothing, whatever the kernel answers.
use reference_monitor.Base.{
  Bool-cases, List, Option, arith, inl, inr, none, refl, some, subst, sym, true, ℕ, ◌%◌, ◌==◌, ◌^◌,
  ◌≡◌, ◌⊎◌,
}
use reference_monitor.Base.Int.{is_error, pos, ℤ}
use reference_monitor.CString.{str_eq}
use reference_monitor.Monitor.{Monitor}
use reference_monitor.Password.{
  CharPtr, HashEnv, PasswordEnv, Sha256, compare_passwords, encrypt_password, get_password, holds,
  null_ptr, of_buffer, password_check, unterminated,
}
use reference_monitor.Run.{Cmd, IfDone, IfDone-bind, Run, and_then, done, fault}

-- A check passes with 0 or fails with an error code, and changes nothing; or it does not come back.
abbrev pub Checks : {S : Type 0} → S → Run S ℤ → Type 0
Checks s (done r s') = ((r ≡ pos 0) ⊎ (is_error r ≡ true)) × (s' ≡ s)
Checks s (fault f) = Unit {0}

abbrev Keeps : {S A : Type 0} → S → Run S A → Type 0
Keeps s (done r s') = s' ≡ s
Keeps s (fault f) = Unit {0}

bind_Checks :
    {S A : Type 0} (s : S) (r : Run S A) (k : A → Cmd S ℤ)
    → Keeps s r
    → ((a : A) → Checks s (k a s))
    → Checks s (and_then r k)
bind_Checks s (done a s') k e h = subst (λ z. Checks s (k a z)) (sym e) (h a)
bind_Checks s (fault f) k e h = tt

module _ (sha : Sha256) where
  hashed-Keeps : (e : HashEnv) (p : CharPtr) (m : Monitor) → Keeps m (encrypt_password sha e p m)
  unfolding encrypt_password
  hashed-Keeps e null_ptr m = ground arith
  hashed-Keeps e unterminated m = ground arith
  hashed-Keeps e (holds t) m = ground arith

  compare-Checks : (a b : Option (List ℕ)) (m : Monitor) → Checks m (compare_passwords a b m)
  unfolding compare_passwords
  compare-Checks none b m = tt
  compare-Checks (some a) none m = tt
  compare-Checks (some a) (some b) m = elim (Bool-cases (str_eq a b)) [
    | inl e ↦ rw e (inl refl, refl)
    | inr e ↦ rw e (inr refl, refl)
  ]

  pub password_check-Checks : (e : PasswordEnv) (m : Monitor) → Checks m (password_check sha e m)
  unfolding password_check
  password_check-Checks e m = elim (Bool-cases e.buffer) [
    | inl b ↦ elim (Bool-cases ((e.copy.left % 2 ^ 32) == 0)) [
      | inl c ↦
          rw (b, c)
            (bind_Checks m (encrypt_password sha e.hash (of_buffer e.copy.bytes) m) _
              (hashed-Keeps e.hash (of_buffer e.copy.bytes) m)
              (λ given. compare-Checks m.password given m))
      | inr c ↦ rw (b, c) (inr refl, refl)
    ]
    | inr b ↦ rw b (inr refl, refl)
  ]

  hashed-IfDone :
      (e : HashEnv) (p : CharPtr) (m : Monitor)
      → IfDone (λ _ m'. m' ≡ m) (encrypt_password sha e p m)
  hashed-IfDone e p m = kept (encrypt_password sha e p m) (hashed-Keeps e p m)
    where
      kept : (r : Run Monitor (Option (List ℕ))) → Keeps m r → IfDone (λ _ m'. m' ≡ m) r
      kept (done a m') h = h
      kept (fault f) h = tt

  -- A monitor that keeps no password lets nobody pass, whatever the kernel answers.
  pub no_password-IfDone :
      (e : PasswordEnv) (m : Monitor)
      → m.password ≡ none
      → IfDone (λ r m'. (is_error r ≡ true) × (m' ≡ m)) (password_check sha e m)
  unfolding password_check get_password compare_passwords
  no_password-IfDone e m unset = elim (Bool-cases e.buffer) [
    | inr b ↦ rw b (refl, refl)
    | inl b ↦ elim (Bool-cases ((e.copy.left % 2 ^ 32) == 0)) [
      | inr c ↦ rw (b, c) (refl, refl)
      | inl c ↦
          rw (b, c)
            (IfDone-bind (λ _ m'. m' ≡ m) _ (encrypt_password sha e.hash (of_buffer e.copy.bytes) m)
              _ (hashed-IfDone e.hash (of_buffer e.copy.bytes) m)
              (λ given m' same. rw (same, unset) tt))
    ]
  ]

-- ===== src/Syscalls/Histories.antt =====
-- Sequences of system calls, from any callers and with any answers of the kernel.
use reference_monitor.Base.{
  List, ap, false, inl, inr, none, refl, some, subst, true, ℕ, ◌∙◌, ◌≡◌, ◌≢◌, ◌⊎◌,
}
use reference_monitor.Base.Int.{ℤ}
use reference_monitor.Password.{PasswordEnv, Sha256, hex}
use reference_monitor.Password.Check.{Answered}
use reference_monitor.Probes.Table.{ProbeApi}
use reference_monitor.Run.{IfDone, Returns, done}
use reference_monitor.Syscalls.{World, sys_get_blacklist_size, sys_get_rf_state}
use reference_monitor.Syscalls.Authority.{Refused, call-Refused}
use reference_monitor.Syscalls.Call.{
  Call, add, call, get, is_change, print, print-IfDone, remove, size, switch,
}
use reference_monitor.Syscalls.Grant.{Declined, call-Declined, password_of}
use reference_monitor.Syscalls.Printing.{IsAnswer}

module _ (fuel : ℕ) (sha : Sha256) (api : ProbeApi) where
  -- The world before and after a sequence of calls that all come back, each allowed by `P`.
  pub data Steps (P : (euid : ℕ) → Call → Type 0) : World → World → Type 0 where
    stop : {w : World} → Steps P w w
    step :
        {w w' w'' : World} (euid : ℕ) (c : Call) (r : ℤ)
        → P euid c
        → call fuel sha api euid c w ≡ done r w'
        → Steps P w' w''
        → Steps P w w''

-- The caller is not root, or the call takes no password, or the string that it gives has another
-- digest than `secret`.
abbrev pub Powerless : Sha256 → (secret : List ℕ) → (euid : ℕ) → Call → Type 0
Powerless sha secret euid c =
    (euid ≢ 0)
    ⊎ (password_of c ≡ none)
    ⊎ ((pw : PasswordEnv) × (s : List ℕ) × (password_of c ≡ some pw)
        × Answered pw s
        × (sha.digest s ≢ sha.digest secret))

change_or_read : (c : Call) → (is_change c ≡ true) ⊎ (password_of c ≡ none)
change_or_read (switch state pw text) = inl refl
change_or_read (get text) = inr refl
change_or_read (add pw e) = inl refl
change_or_read (remove pw e) = inl refl
change_or_read size = inr refl
change_or_read (print e asked) = inr refl

module _ (fuel : ℕ) (sha : Sha256) (api : ProbeApi) (secret : List ℕ) where
  only_reads :
      (euid : ℕ) (c : Call) (w w' : World) (r : ℤ)
      → password_of c ≡ none
      → call fuel sha api euid c w ≡ done r w'
      → w' ≡ w
  unfolding call sys_get_rf_state sys_get_blacklist_size
  only_reads euid (switch state pw text) w w' r e run = absurd (cc)
  only_reads euid (add pw e') w w' r e run = absurd (cc)
  only_reads euid (remove pw e') w w' r e run = absurd (cc)
  only_reads euid (get true) w w' r e run = cc
  only_reads euid (get false) w w' r e run = cc
  only_reads euid size w w' r e run = cc
  only_reads euid (print e' asked) w w' r e run =
      (subst (IfDone (λ a w'. IsAnswer a × (w' ≡ w))) run (print-IfDone fuel e' asked w)).1

  step_lem :
      (euid : ℕ) (c : Call) (w w' : World) (r : ℤ)
      → w.rf.password ≡ some (hex (sha.digest secret))
      → Powerless sha secret euid c
      → call fuel sha api euid c w ≡ done r w'
      → w' ≡ w
  step_lem euid c w w' r kept (inl ne) run = elim (change_or_read c) [
    | inl ch ↦ (subst (Refused w) run (call-Refused fuel sha api euid w c ne ch)).1
    | inr none_so ↦ only_reads euid c w w' r none_so run
  ]
  step_lem euid c w w' r kept (inr (inl none_so)) run = only_reads euid c w w' r none_so run
  step_lem euid c w w' r kept (inr (inr (pw, s, e, a, ne))) run =
      (subst (Returns (Declined w)) run
        (call-Declined fuel sha api euid w pw s secret c e a kept (inl ne))).1

  -- The monitor keeps the digest of `secret`. However many calls are made, by callers that are not
  -- root or that give strings of other digests, the monitor and the probes are as they were.
  pub Steps-Powerless :
      (w w' : World)
      → w.rf.password ≡ some (hex (sha.digest secret))
      → Steps fuel sha api (Powerless sha secret) w w'
      → w' ≡ w
  Steps-Powerless w w' kept stop = refl
  Steps-Powerless w w' kept (step {w' = w1} euid c r p run rest) =
      let e = step_lem euid c w w1 r kept p run in
      Steps-Powerless w1 w' (ap (λ z. z.rf.password) e ∙ kept) rest ∙ e

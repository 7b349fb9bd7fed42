-- ===== src/Syscalls/Authority.antt =====
-- Who can change the monitor.
use reference_monitor.Base.{
  arith, false, false≢true, inl, inr, refl, subst, sym, true, ℕ, ◌==◌, ◌≡◌, ◌≢◌, ◌⊎◌,
}
use reference_monitor.Base.Int.{is_error, negsuc, pos, ℤ}
use reference_monitor.Checks.{
  euid_check, is_rf_rec, is_rf_rec-codes, rf_state_check, rf_state_check-codes,
}
use reference_monitor.Monitor.{Monitor}
use reference_monitor.Password.{PasswordEnv, Sha256, password_check}
use reference_monitor.Password.Keeps.{Checks, password_check-Checks}
use reference_monitor.Probes.Table.{ProbeApi}
use reference_monitor.Run.{Cmd, Run, and_then, done, fault}
use reference_monitor.Syscalls.{
  World, on_rf, sys_add_to_blacklist, sys_remove_from_blacklist, sys_switch_rf_state, unless_error,
  with_rf,
}
use reference_monitor.Syscalls.Call.{Call, add, call, get, is_change, print, remove, size, switch}

-- The call comes back with an error code and the world as it was, or does not come back.
abbrev pub Refused : World → Run World ℤ → Type 0
Refused w (done r w') = (is_error r ≡ true) × (w' ≡ w)
Refused w (fault f) = Unit {0}

by_code :
    (w : World) (r : ℤ) (k : Cmd World ℤ)
    → (r ≡ pos 0) ⊎ (is_error r ≡ true)
    → Refused w (k w)
    → Refused w (unless_error r k w)
by_code w r k (inl e) g = subst (λ z. Refused w (unless_error z k w)) (sym e) g
by_code w (negsuc n) k (inr e) g = (refl, refl)
by_code w (pos n) k (inr e) g = absurd (false≢true e)

passed :
    (w : World) (r : Run Monitor ℤ) (k : Cmd World ℤ)
    → Checks w.rf r
    → Refused w (k w)
    → Refused w (and_then (with_rf w r) (λ c. unless_error c k))
passed w (done r m) k h g =
    subst (λ z. Refused w (unless_error r k (record w { rf = z }))) (sym h.1) (by_code w r k h.0 g)
passed w (fault f) k h g = tt

-- Behind the password check, everything is refused if its continuation is.
password_first :
    (sha : Sha256) (e : PasswordEnv) (w : World) (k : Cmd World ℤ)
    → Refused w (k w)
    → Refused w (and_then (on_rf (password_check sha e) w) (λ c. unless_error c k))
password_first sha e w k g =
    passed w (password_check sha e w.rf) k (password_check-Checks sha e w.rf) g

not_root :
    (w : World) (euid : ℕ) (k : Cmd World ℤ)
    → euid ≢ 0
    → Refused w (unless_error (euid_check euid) k w)
unfolding euid_check
not_root w euid k ne = let no_root : (euid == 0) ≡ false = ground arith in rw no_root (refl, refl)

module _ (fuel : ℕ) (sha : Sha256) (api : ProbeApi) (euid : ℕ) (w : World) where
  -- A caller that is not root changes nothing: whatever the state, the password and the kernel's
  -- answers, a call to switch the state, to add or to remove a path that comes back at all comes
  -- back with an error code, and with monitor and probes as they were.
  pub call-Refused :
      (c : Call) → euid ≢ 0 → is_change c ≡ true → Refused w (call fuel sha api euid c w)
  unfolding call sys_switch_rf_state sys_add_to_blacklist sys_remove_from_blacklist
  call-Refused (switch state pw text) ne ch =
      by_code w (rf_state_check state) _ (rf_state_check-codes state)
        (password_first sha pw w _ (not_root w euid _ ne))
  call-Refused (get text) ne ch = absurd (false≢true ch)
  call-Refused (add pw e) ne ch =
      by_code w (is_rf_rec w.rf) _ (is_rf_rec-codes w.rf)
        (password_first sha pw w _ (not_root w euid _ ne))
  call-Refused (remove pw e) ne ch =
      by_code w (is_rf_rec w.rf) _ (is_rf_rec-codes w.rf)
        (password_first sha pw w _ (not_root w euid _ ne))
  call-Refused size ne ch = absurd (false≢true ch)
  call-Refused (print e asked) ne ch = absurd (false≢true ch)

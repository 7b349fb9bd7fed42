-- ===== src/Syscalls/Stops.antt =====
-- The system calls come to an end, and to the same one on every fuel that is enough for the list.
-- The memory that the kernel gives for a new node is none of the list's.
use reference_monitor.Base.{
  Bool, Bool-cases, Option-cases, ap, arith, false, inl, inr, length, refl, set, some, suc, zero, ℕ,
  ◌<◌, ◌||◌, ◌≡◌, ◌≢◌,
}
use reference_monitor.Base.Int.{eq_pos, negsuc, pos, ℤ}
use reference_monitor.Blacklist.{Block, RemoveEnv, remove_from_blacklist}
use reference_monitor.Blacklist.Add.Stops.{add_to_blacklist-Settled}
use reference_monitor.Blacklist.Remove.Stops.{remove_from_blacklist-Settled}
use reference_monitor.Checks.{euid_check, is_rf_rec, rf_state_check}
use reference_monitor.Monitor.{Monitor, spin_lock, spin_unlock}
use reference_monitor.Monitor.Chain.{Cells, has}
use reference_monitor.Monitor.Invariant.{Holds}
use reference_monitor.Password.{PasswordEnv, Sha256, password_check}
use reference_monitor.Password.Keeps.{Checks, password_check-Checks}
use reference_monitor.Password.Stops.{password_check-stops}
use reference_monitor.Probes.Table.{ProbeApi, disable_kprobes, enable_kprobes}
use reference_monitor.Run.{
  Cmd, Run, Settled, and_then, done, fault, hang, hangs, hangs-bind, not-hang, pure,
}
use reference_monitor.Syscalls.{
  World, not_found_as_one, on_rf, remove_path, switch_state, sys_add_to_blacklist,
  sys_get_blacklist_size, sys_get_rf_state, sys_remove_from_blacklist, sys_switch_rf_state,
  unless_error, with_rf,
}
use reference_monitor.Syscalls.Print.{Printed}
use reference_monitor.Syscalls.Printing.Stops.{sys_print_blacklist-Settled}
use reference_monitor.Syscalls.Call.{Call, add, call, get, print, remove, size, switch, told}
use reference_monitor.Syscalls.Grant.{switch_state_lem}

abbrev pub Apart : Cells → Call → Type 0
Apart xs (add pw e) = (b : Block) → e.block ≡ some b → has b.address xs ≡ false
Apart xs other = Unit {0}

with_rf-Settled :
    (w : World) (r r' : Run Monitor ℤ) → Settled r r' → Settled (with_rf w r) (with_rf w r')
with_rf-Settled w r r' (same, ends) = (ap (with_rf w) same, still r ends)
  where
    still : (r : Run Monitor ℤ) → hangs r ≡ false → hangs (with_rf w r) ≡ false
    still (done a m) e = refl
    still (fault hang) e = absurd (cc)
    still (fault other) e = refl

told-Settled :
    (w : World) (r r' : Run Monitor Printed) → Settled r r' → Settled (told w r) (told w r')
unfolding told
told-Settled w r r' (same, ends) = (ap (told w) same, still r ends)
  where
    still : (r : Run Monitor Printed) → hangs r ≡ false → hangs (told w r) ≡ false
    still (done a m) e = refl
    still (fault hang) e = absurd (cc)
    still (fault other) e = refl

unless_error-Settled :
    (w : World) (r : ℤ) (k k' : Cmd World ℤ)
    → Settled (k w) (k' w)
    → Settled (unless_error r k w) (unless_error r k' w)
unless_error-Settled w (pos zero) k k' h = h
unless_error-Settled w (pos (suc n)) k k' h = (refl, refl)
unless_error-Settled w (negsuc n) k k' h = (refl, refl)

password-Settled :
    (sha : Sha256) (pw : PasswordEnv) (w : World) (k k' : Cmd World ℤ)
    → Settled (k w) (k' w)
    → Settled
        (and_then (on_rf (password_check sha pw) w) (λ c. unless_error c k))
        (and_then (on_rf (password_check sha pw) w) (λ c. unless_error c k'))
password-Settled sha pw w k k' h =
    unchanged (password_check sha pw w.rf) (password_check-stops sha pw w.rf)
      (password_check-Checks sha pw w.rf)
  where
    unchanged :
        (r : Run Monitor ℤ)
        → hangs r ≡ false
        → Checks w.rf r
        → Settled
            (and_then (with_rf w r) (λ c. unless_error c k))
            (and_then (with_rf w r) (λ c. unless_error c k'))
    unchanged (done c m) e (code, same) = rw same (unless_error-Settled w c k k' h)
    unchanged (fault hang) e checks = absurd (cc)
    unchanged (fault other) e checks = (refl, refl)

switch_state-stops :
    (api : ProbeApi) (state : ℤ) (text : Bool) (w : World)
    → w.rf.locked ≡ false
    → hangs (switch_state api state text w) ≡ false
unfolding switch_state spin_lock spin_unlock enable_kprobes disable_kprobes
switch_state-stops api state text w un = elim (Option-cases w.probes) [
  | inl none_yet ↦ elim (Bool-cases (eq_pos state 0 || eq_pos state 2)) [
    | inl on ↦ rw (un, on, none_yet)
    | inr off ↦ rw (un, off, none_yet)
  ]
  | inr (ps, set) ↦ rw (switch_state_lem api state text w ps un set) (ground arith)
]

remove_path-Settled :
    (fuel fuel' : ℕ) (e : RemoveEnv) (w : World)
    → Settled (on_rf (remove_from_blacklist fuel e) w) (on_rf (remove_from_blacklist fuel' e) w)
    → Settled (remove_path fuel e w) (remove_path fuel' e w)
unfolding remove_path
remove_path-Settled fuel fuel' e w (same, ends) = (
  ap (λ r. and_then r (λ ret. pure (not_found_as_one ret))) same,
  hangs-bind (on_rf (remove_from_blacklist fuel e) w) _ ends (λ ret s. refl),
)

module _ (fuel fuel' : ℕ) (sha : Sha256) (api : ProbeApi) (euid : ℕ) (w : World) (xs : Cells) where
  call-Settled :
      (c : Call)
      → Holds w.rf xs
      → Apart xs c
      → length xs < fuel
      → length xs < fuel'
      → Settled (call fuel sha api euid c w) (call fuel' sha api euid c w)
  unfolding call sys_switch_rf_state sys_get_rf_state sys_add_to_blacklist sys_remove_from_blacklist
      sys_get_blacklist_size
  call-Settled (switch state pw text) h apart lt lt' =
      unless_error-Settled w (rf_state_check state) _ _ (
        password-Settled sha pw w _ _ (
          unless_error-Settled w (euid_check euid) _ _
            (refl, switch_state-stops api state text w h.unlocked)))
  call-Settled (get text) h apart lt lt' = elim (Bool-cases text) [
    | inl t ↦ rw t (refl, refl)
    | inr t ↦ rw t (refl, refl)
  ]
  call-Settled (add pw e) h apart lt lt' = unless_error-Settled w (is_rf_rec w.rf) _ _ (
      password-Settled sha pw w _ _ (
        unless_error-Settled w (euid_check euid) _ _ (
          with_rf-Settled w _ _
            (add_to_blacklist-Settled fuel fuel' e w.rf xs h apart (omega arith) (omega arith)))))
  call-Settled (remove pw e) h apart lt lt' = unless_error-Settled w (is_rf_rec w.rf) _ _ (
      password-Settled sha pw w _ _ (
        unless_error-Settled w (euid_check euid) _ _ (
          remove_path-Settled fuel fuel' e w
            (with_rf-Settled w _ _ (remove_from_blacklist-Settled fuel fuel' e w.rf xs h lt lt')))))
  call-Settled size h apart lt lt' = (refl, refl)
  call-Settled (print e asked) h apart lt lt' =
      told-Settled w _ _ (sys_print_blacklist-Settled fuel fuel' e asked w.rf xs h.list lt lt')

  -- Each of the six system calls, of every caller and whatever the kernel answers, comes to the same end with
  -- any two amounts of fuel above the length of the list, and that end is not for want of fuel: the
  -- loops stop by their own tests, the loop of the printing too. The monitor is well-formed, and the memory that the kernel gives
  -- for a new node is none of the list's.
  pub call-Stops :
      (c : Call)
      → Holds w.rf xs
      → Apart xs c
      → length xs < fuel
      → length xs < fuel'
      → (call fuel sha api euid c w ≡ call fuel' sha api euid c w)
        × (call fuel sha api euid c w ≢ fault hang)
  call-Stops c h apart lt lt' =
      let (same, ends) = call-Settled c h apart lt lt' in
      (same, not-hang (call fuel sha api euid c w) ends)

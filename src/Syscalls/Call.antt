-- ===== src/Syscalls/Call.antt =====
-- The six calls that a user can make, with what the kernel answers during each.
use reference_monitor.Base.{Bool, ap, false, true, ℕ, ◌≡◌}
use reference_monitor.Base.Int.{ℤ}
use reference_monitor.Blacklist.{AddEnv, RemoveEnv}
use reference_monitor.Monitor.{Monitor}
use reference_monitor.Password.{PasswordEnv, Sha256}
use reference_monitor.Probes.Table.{ProbeApi}
use reference_monitor.Run.{Cmd, IfDone, Returns, Run, done, fault}
use reference_monitor.Syscalls.{
  World, sys_add_to_blacklist, sys_get_blacklist_size, sys_get_rf_state, sys_remove_from_blacklist,
  sys_switch_rf_state,
}
use reference_monitor.Syscalls.Print.{PrintEnv, Printed, sys_print_blacklist}
use reference_monitor.Syscalls.Printing.{IsAnswer, sys_print_blacklist-IfDone}

pub data Call : Type 0 where
  switch : ℤ → PasswordEnv → Bool → Call
  get : Bool → Call
  add : PasswordEnv → AddEnv → Call
  remove : PasswordEnv → RemoveEnv → Call
  size : Call
  print : PrintEnv → (asked : ℕ) → Call

-- The result of `sys_print_blacklist`, without the text that reaches the caller.
unfoldable pub told : World → Run Monitor Printed → Run World ℤ
told w (done p m) = done p.ret (record w { rf = m })
told w (fault f) = fault f

unfoldable pub call : ℕ → Sha256 → ProbeApi → (euid : ℕ) → Call → Cmd World ℤ
call fuel sha api euid (switch state pw text) = sys_switch_rf_state sha api state pw euid text
call fuel sha api euid (get text) = sys_get_rf_state text
call fuel sha api euid (add pw e) = sys_add_to_blacklist fuel sha pw euid e
call fuel sha api euid (remove pw e) = sys_remove_from_blacklist fuel sha pw euid e
call fuel sha api euid size = sys_get_blacklist_size
call fuel sha api euid (print e asked) = λ w. told w (sys_print_blacklist fuel e asked w.rf)

-- The calls that are meant to change the monitor.
abbrev pub is_change : Call → Bool
is_change (switch state pw text) = true
is_change (add pw e) = true
is_change (remove pw e) = true
is_change other = false

-- What a call comes to: a result and a world for which `P` holds. `sys_print_blacklist` may also not
-- come back.
abbrev pub Ends : Call → (ℤ → World → Type 0) → Run World ℤ → Type 0
Ends (switch state pw text) P r = Returns P r
Ends (get text) P r = Returns P r
Ends (add pw e) P r = Returns P r
Ends (remove pw e) P r = Returns P r
Ends size P r = Returns P r
Ends (print e asked) P r = IfDone P r

pub Ends-done :
    (c : Call) (P : ℤ → World → Type 0) (r : ℤ) (w : World) → Ends c P (done r w) → P r w
Ends-done (switch state pw text) P r w h = h
Ends-done (get text) P r w h = h
Ends-done (add pw e) P r w h = h
Ends-done (remove pw e) P r w h = h
Ends-done size P r w h = h
Ends-done (print e asked) P r w h = h

told-IfDone :
    (P : ℤ → Type 0) (w : World) (r : Run Monitor Printed)
    → IfDone (λ p m. P p.ret × (m ≡ w.rf)) r
    → IfDone (λ a w'. P a × (w' ≡ w)) (told w r)
unfolding told
told-IfDone P w (done p m) (h, same) = (h, ap (λ z. record w { rf = z }) same)
told-IfDone P w (fault f) h = tt

-- The printing, where it comes back, answers with 0 or an error and changes nothing.
pub print-IfDone :
    (fuel : ℕ) (e : PrintEnv) (asked : ℕ) (w : World)
    → IfDone (λ a w'. IsAnswer a × (w' ≡ w)) (told w (sys_print_blacklist fuel e asked w.rf))
print-IfDone fuel e asked w =
    told-IfDone IsAnswer w (sys_print_blacklist fuel e asked w.rf)
      (sys_print_blacklist-IfDone fuel e asked w.rf)

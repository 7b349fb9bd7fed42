-- ===== src/Syscalls.antt =====
-- The system calls of reference-monitor/stack_reference_monitor.c.
pub mod Spec
pub mod Authority
pub mod Call
pub mod Errors
pub mod Grant
pub mod Histories
pub mod Keeps
pub mod Stops
pub mod Overrun
pub mod Print
pub mod Printing
use reference_monitor.Base.{Bool, if◌then◌else◌, suc, zero, ℕ, ◌==◌, ◌||◌}
use reference_monitor.Base.Int.{enomem, eq_pos, int_of, negsuc, pos, ℤ}
use reference_monitor.Blacklist.{AddEnv, RemoveEnv, add_to_blacklist, remove_from_blacklist}
use reference_monitor.Checks.{euid_check, is_rf_rec, rf_state_check}
use reference_monitor.Monitor.{Monitor, spin_lock, spin_unlock}
use reference_monitor.Password.{PasswordEnv, Sha256, password_check}
use reference_monitor.Probes.Table.{ProbeApi, Probes, disable_kprobes, enable_kprobes}
use reference_monitor.Run.{Cmd, Run, done, fault, pure, ◌>>=◌, ◌>>◌}

-- The module's globals: `reference_monitor` and the probes.
pub record World : Type 0 where
  pub rf : Monitor
  pub probes : Probes

abbrev pub with_rf : {A : Type 0} → World → Run Monitor A → Run World A
with_rf w (done a m) = done a (record w { rf = m })
with_rf w (fault f) = fault f

abbrev pub with_probes : {A : Type 0} → World → Run Probes A → Run World A
with_probes w (done a ps) = done a (record w { probes = ps })
with_probes w (fault f) = fault f

abbrev pub on_rf : {A : Type 0} → Cmd Monitor A → Cmd World A
on_rf c w = with_rf w (c w.rf)

abbrev pub on_probes : {A : Type 0} → Cmd Probes A → Cmd World A
on_probes c w = with_probes w (c w.probes)

-- `if (ret != 0) return ret;`
abbrev pub unless_error : ℤ → Cmd World ℤ → Cmd World ℤ
unless_error (pos zero) k = k
unless_error (pos (suc n)) k = pure (pos (suc n))
unless_error (negsuc n) k = pure (negsuc n)

unfoldable pub set_state : ℤ → Cmd Monitor (Unit {0})
set_state state m = done tt (record m { state = state })

get_state : Cmd World ℤ
get_state w = done w.rf.state w

-- The body of `sys_switch_rf_state` behind the checks. `state_string` says whether there is memory
-- for the audit text, which is asked for when the state has changed already.
pub switch_state : ProbeApi → ℤ → (state_string : Bool) → Cmd World ℤ
unfolding set_state get_state
switch_state api state state_string = do
  on_rf spin_lock
  on_rf (set_state state)
  on_rf spin_unlock
  on_probes (if eq_pos state 0 || eq_pos state 2 then enable_kprobes api else disable_kprobes api)
  if state_string then get_state else pure enomem

unfoldable pub sys_switch_rf_state :
    Sha256 → ProbeApi → ℤ → PasswordEnv → (euid : ℕ) → Bool → Cmd World ℤ
unfolding switch_state
sys_switch_rf_state sha api state pw euid state_string = unless_error (rf_state_check state) (do
  ret ← on_rf (password_check sha pw)
  unless_error ret (unless_error (euid_check euid) (switch_state api state state_string)))

unfoldable pub sys_get_rf_state : (state_string : Bool) → Cmd World ℤ
unfolding get_state
sys_get_rf_state state_string = if state_string then get_state else pure enomem

rec_check : Cmd World ℤ
rec_check w = done (is_rf_rec w.rf) w

unfoldable pub sys_add_to_blacklist : ℕ → Sha256 → PasswordEnv → (euid : ℕ) → AddEnv → Cmd World ℤ
unfolding rec_check
sys_add_to_blacklist fuel sha pw euid e = do
  ret ← rec_check
  unless_error ret (do
    ret ← on_rf (password_check sha pw)
    unless_error ret (unless_error (euid_check euid) (on_rf (add_to_blacklist fuel e))))

-- `ret == -EINVAL` becomes 1, which the client reads as "not found".
not_found_as_one : ℤ → ℤ
not_found_as_one (pos n) = pos n
not_found_as_one (negsuc n) = if n == 21 then pos 1 else negsuc n

remove_path : ℕ → RemoveEnv → Cmd World ℤ
unfolding not_found_as_one
remove_path fuel e = do ret ← on_rf (remove_from_blacklist fuel e); pure (not_found_as_one ret)

unfoldable pub sys_remove_from_blacklist :
    ℕ → Sha256 → PasswordEnv → (euid : ℕ) → RemoveEnv → Cmd World ℤ
unfolding rec_check remove_path
sys_remove_from_blacklist fuel sha pw euid e = do
  ret ← rec_check
  unless_error ret (do
    ret ← on_rf (password_check sha pw)
    unless_error ret (unless_error (euid_check euid) (remove_path fuel e)))

unfoldable pub sys_get_blacklist_size : Cmd World ℤ
sys_get_blacklist_size w = done (int_of w.rf.size) w

-- ===== src/Init.antt =====
-- `init_module` and `cleanup_module` of reference-monitor/stack_reference_monitor.c.
pub mod Served
pub mod Start
pub mod Undigested
use reference_monitor.Base.{Bool, List, Option, if◌then◌else◌, ℕ}
use reference_monitor.Base.Int.{eq_pos, pos, ℤ}
use reference_monitor.Install.{Kernel, initialize_syscalls, restore_table}
use reference_monitor.Monitor.{Monitor, null, spin_lock, spin_unlock}
use reference_monitor.Password.{CharPtr, HashEnv, Sha256, encrypt_password}
use reference_monitor.Probes.Table.{ProbeApi, kretprobe_clean, kretprobe_init}
use reference_monitor.Run.{Cmd, Run, done, fault, pure, ◌>>=◌, ◌>>◌}
use reference_monitor.Syscalls.{World, on_probes, on_rf}
use reference_monitor.Syscalls.Call.{size}

-- Everything that the module keeps: the table and the register, the monitor, the probes.
pub record Module : Type 0 where
  pub kernel : Kernel
  pub world : World

with_kernel : {A : Type 0} → Module → Run Kernel A → Run Module A
with_kernel s (done a k) = done a (record s { kernel = k })
with_kernel s (fault f) = fault f

with_world : {A : Type 0} → Module → Run World A → Run Module A
with_world s (done a w) = done a (record s { world = w })
with_world s (fault f) = fault f

abbrev on_kernel : {A : Type 0} → Cmd Kernel A → Cmd Module A
on_kernel c s = with_kernel s (c s.kernel)

abbrev on_world : {A : Type 0} → Cmd World A → Cmd Module A
on_world c s = with_world s (c s.world)

-- `state = 1; blacklist_head = NULL; blacklist_size = 0;`
reset : Cmd Monitor (Unit {0})
reset m = done tt (record m { state = pos 1; head = null; size = 0 })

set_password : Option (List ℕ) → Cmd Monitor (Unit {0})
set_password p m = done tt (record m { password = p })

-- Behind the system calls: the state is set up under the lock, the password's digest is kept
-- whether it is NULL or not, and the status of `kretprobe_init` is not looked at.
set_up : Sha256 → ProbeApi → CharPtr → HashEnv → (array_buffer : Bool) → Cmd World ℤ
unfolding reset set_password
set_up sha api password hash array_buffer = do
  on_rf spin_lock
  on_rf reset
  on_rf spin_unlock
  enc_password ← on_rf (encrypt_password sha hash password)
  on_rf (set_password enc_password)
  on_probes (kretprobe_init api array_buffer)
  pure (pos 0)

-- `password` is the module's parameter, `calls` the addresses of its system calls.
unfoldable pub init_module :
    Sha256 → ProbeApi → (calls : List ℕ) → CharPtr → HashEnv → (array_buffer : Bool) → Cmd Module ℤ
unfolding set_up with_kernel with_world
init_module sha api calls password hash array_buffer = do
  ret ← on_kernel (initialize_syscalls calls)
  if eq_pos ret 0 then on_world (set_up sha api password hash array_buffer) else pure ret

unfoldable pub cleanup_module : ProbeApi → Cmd Module (Unit {0})
unfolding with_kernel with_world
cleanup_module api = do on_kernel restore_table; on_world (on_probes (kretprobe_clean api))

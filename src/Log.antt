-- ===== src/Log.antt =====
-- reference-monitor/log/logger.c, up to the point where the work is queued: what `write_on_log`
-- collects about the offending thread.
pub mod Deferred
pub mod Written
use reference_monitor.Base.{
  Bool, List, Option, [], false, if◌then◌else◌, none, not, some, ℕ, ◌++◌, ◌∷◌,
}
use reference_monitor.DentryPath.{PathEnv, get_path_from_dentry}
use reference_monitor.Monitor.{FilePath}
use reference_monitor.Run.{Cmd, bad_unlock, done, fail, fault, null_deref}

pub record LogData : Type 0 where
  pub tid : ℕ
  pub tgid : ℕ
  pub uid : ℕ
  pub euid : ℕ
  pub exe_path : Option FilePath

-- The queue of deferred work, in the order of `schedule_work`, and `def_work_lock`.
pub record Log : Type 0 where
  pub queue : List LogData
  pub work_locked : Bool

-- The current thread, and what the kernel answers: memory for the data, whether the thread has a
-- program file (a kernel thread has none), its path, memory for the copy of it, and memory for the
-- work.
pub record TaskEnv : Type 0 where
  pub data_buffer : Bool
  pub program : Bool
  pub exe : PathEnv
  pub copy_buffer : Bool
  pub work_buffer : Bool
  pub tid : ℕ
  pub tgid : ℕ
  pub uid : ℕ
  pub euid : ℕ

-- `spin_unlock(&def_work_lock)`
unlock_work : Cmd Log (Unit {0})
unlock_work l =
    if l.work_locked then done tt (record l { work_locked = false }) else fault bad_unlock

schedule_work : LogData → Cmd Log (Unit {0})
schedule_work d l = done tt (record l { queue = l.queue ++ d ∷ [] })

-- `kstrdup`, NULL for NULL and when there is no memory
kstrdup : Bool → Option FilePath → Option FilePath
kstrdup ok none = none
kstrdup ok (some s) = if ok then some s else none

abbrev log_data : TaskEnv → Option FilePath → LogData
log_data t path = record { tid = t.tid; tgid = t.tgid; uid = t.uid; euid = t.euid; exe_path = path }

unfoldable pub write_on_log : TaskEnv → Cmd Log (Unit {0})
unfolding unlock_work schedule_work kstrdup
write_on_log t =
    if not t.data_buffer
    then unlock_work
    else if not t.program
    then fail null_deref
    else if not t.work_buffer
    then unlock_work
    else schedule_work (log_data t (kstrdup t.copy_buffer (get_path_from_dentry t.exe)))

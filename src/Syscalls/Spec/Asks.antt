-- ===== src/Syscalls/Spec/Asks.antt =====
-- The calls that the kernel answers as they ask, with the demand that each makes.
use reference_monitor.Base.{Bool, List, Option, none, some, true, ℕ, ◌≡◌, ◌≢◌, ◌≤◌}
use reference_monitor.Base.Int.{ℤ}
use reference_monitor.Blacklist.{AddEnv, Block, RemoveEnv}
use reference_monitor.CString.{c_str}
use reference_monitor.Monitor.{FilePath, null}
use reference_monitor.Password.{PasswordEnv}
use reference_monitor.Password.Check.{Answered}
use reference_monitor.Syscalls.{World}
use reference_monitor.Syscalls.Call.{Call, add, get, print, remove, size, switch}
use reference_monitor.Syscalls.Print.{PrintEnv}
use reference_monitor.Syscalls.Spec.{
  Demand, protect, read_paths, read_size, read_state, release, to_state,
}

-- `Asks w c d g`: the call `c` makes the demand `d` and gives the password `g`, if it takes one. The
-- kernel copies what it is handed, computes the digest, and gives the memory for a new node where
-- there is no node yet, with NULL in its `next`.
pub data Asks (w : World) : Call → Demand → Option (List ℕ) → Type 0 where
  asks_switch :
      {pw : PasswordEnv} {s : List ℕ} (n : ℤ) (text : Bool)
      → Answered pw s
      → Asks w (switch n pw text) (to_state n text) (some s)
  asks_state : (text : Bool) → Asks w (get text) (read_state text) none
  asks_add :
      {pw : PasswordEnv} {s : List ℕ} {e : AddEnv} (path : FilePath) (b : Block)
      → Answered pw s
      → (e.buffer ≡ true) × (e.copy.left ≤ 4096) × (c_str e.copy.bytes ≡ some path)
      → (e.block ≡ some b) × (e.path_buffer ≡ true)
      → (b.address ≢ null) × (w.rf.nodes b.address ≡ none) × (b.stale ≡ null)
      → Asks w (add pw e) (protect path) (some s)
  asks_remove :
      {pw : PasswordEnv} {s : List ℕ} {e : RemoveEnv} (path : FilePath)
      → Answered pw s
      → (e.buffer ≡ true) × (e.copy.left ≤ 4096) × (c_str e.copy.bytes ≡ some path)
      → Asks w (remove pw e) (release path) (some s)
  asks_size : Asks w size read_size none
  asks_print : (e : PrintEnv) (asked : ℕ) → Asks w (print e asked) read_paths none

-- ===== src/Syscalls/Spec.antt =====
-- What the system calls promise, without the list in memory: a state, and which paths are protected.
pub mod Allowed
pub mod Asks
pub mod Handlers
pub mod Refines
pub mod Served
pub mod Shows
use reference_monitor.Base.{
  Bool, List, if◌then◌else◌, length, not, true, ℕ, ◌&&◌, ◌<◌, ◌^◌, ◌||◌, ◌≡◌, ◌≤◌, ◌⊎◌,
}
use reference_monitor.Base.Int.{eexist, enomem, gt_pos, int_of, is_error, lt_pos, pos, ℤ}
use reference_monitor.Blacklist.Unique.{Unique}
use reference_monitor.CString.{str_eq}
use reference_monitor.Monitor.{FilePath}
use reference_monitor.Monitor.Edit.{contains}

pub record View : Type 0 where
  pub state : ℤ
  pub protects : FilePath → Bool

pub data Demand : Type 0 where
  to_state : ℤ → (text : Bool) → Demand
  protect : FilePath → Demand
  release : FilePath → Demand
  read_state : (text : Bool) → Demand
  read_size : Demand
  read_paths : Demand

-- The result of a call: an error code, a value, a count that is not below the number of the paths that
-- are protected, or 0 or an error code.
pub data Promise : Type 0 where
  denied : Promise
  says : ℤ → Promise
  counts : (FilePath → Bool) → Promise
  answers : Promise

abbrev pub Fits : Promise → ℤ → Type 0
Fits denied r = is_error r ≡ true
Fits (says v) r = r ≡ v
Fits (counts protects) r =
    (ts : List FilePath) × (n : ℕ) × Unique ts
    × ((q : FilePath) → contains q ts ≡ protects q)
    × (length ts ≤ n)
    × (n < 2 ^ 32)
    × (r ≡ int_of n)
Fits answers r = (r ≡ pos 0) ⊎ (is_error r ≡ true)

abbrev pub is_state : ℤ → Bool
is_state n = not (lt_pos n 0 || gt_pos n 3)

abbrev pub may_edit : View → Bool
may_edit v = not (lt_pos v.state 2)

-- `allowed` says that the caller is root and knows the password.
unfoldable pub spec : (allowed : Bool) → Demand → View → View × Promise
spec allowed (to_state n text) v =
    if allowed && is_state n
    then (record v { state = n }, says (if text then n else enomem))
    else (v, denied)
spec allowed (protect p) v =
    if allowed && may_edit v
    then (
      record v { protects = λ q. str_eq p q || v.protects q },
      says (if v.protects p then eexist else pos 0),
    )
    else (v, denied)
spec allowed (release p) v =
    if allowed && may_edit v
    then (
      record v { protects = λ q. not (str_eq p q) && v.protects q },
      says (if v.protects p then pos 0 else pos 1),
    )
    else (v, denied)
spec allowed (read_state text) v = (v, says (if text then v.state else enomem))
spec allowed read_size v = (v, counts v.protects)
spec allowed read_paths v = (v, answers)

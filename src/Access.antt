-- ===== src/Access.antt =====
-- `is_blacklisted` of reference-monitor/stack_reference_monitor.c: the decision that every probe
-- asks for.
pub mod Cover
pub mod Decision
pub mod Race
use reference_monitor.Base.{
  Bool, Option, if◌then◌else◌, length, none, some, suc, true, zero, ℕ, ◌-◌, ◌==◌, ◌||◌,
}
use reference_monitor.Base.Int.{eq_pos}
use reference_monitor.CString.{ends_with, strncmp_eq}
use reference_monitor.Monitor.{FilePath, Monitor, Ptr, load, null, spin_lock, spin_unlock}
use reference_monitor.Run.{Cmd, done, fail, hang, null_deref, pure, ◌>>=◌, ◌>>◌}

-- `'/'`
abbrev pub slash : ℕ
slash = 47

-- `strncmp(path, s, n) == 0`, where `path` may be NULL
prefix_test : Option FilePath → FilePath → ℕ → Cmd Monitor Bool
prefix_test none s zero = pure true
prefix_test none s (suc n) = fail null_deref
prefix_test (some p) s n = pure (strncmp_eq p s n)

-- `spin_unlock(&reference_monitor.lock); return r;`
leave : ℕ → Cmd Monitor ℕ
leave r = do spin_unlock; pure r

scan : ℕ → Option FilePath → (curr : Ptr) → Cmd Monitor ℕ
unfolding prefix_test leave
scan zero path curr = fail hang
scan (suc k) path curr = if curr == null then leave 0 else do
  n ← load curr
  let rest = scan k path n.next
  same ← prefix_test path n.path (length n.path)
  if same
      then leave 1
      else if ends_with n.path slash
      then (do same ← prefix_test path n.path (length n.path - 1); if same then leave 1 else rest)
      else rest

get_monitor : Cmd Monitor Monitor
get_monitor m = done m m

unfoldable pub is_blacklisted : ℕ → Option FilePath → Cmd Monitor ℕ
unfolding scan get_monitor
is_blacklisted fuel path = do
  m ← get_monitor
  if m.size == 0
      then pure 0
      else if eq_pos m.state 1 || eq_pos m.state 3
      then pure 0
      else do spin_lock; scan fuel path m.head

-- The same in the two parts between which another processor can change the list: the tests and the
-- reading of the head are made without the lock. `none` when the tests answer already.
unfoldable pub start_check : Cmd Monitor (Option Ptr)
unfolding get_monitor
start_check = do
  m ← get_monitor
  if m.size == 0
      then pure none
      else if eq_pos m.state 1 || eq_pos m.state 3
      then pure none
      else pure (some m.head)

unfoldable pub finish_check : ℕ → Option FilePath → Option Ptr → Cmd Monitor ℕ
unfolding scan
finish_check fuel path none = pure 0
finish_check fuel path (some curr) = do spin_lock; scan fuel path curr

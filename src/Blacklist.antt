-- ===== src/Blacklist.antt =====
-- reference-monitor/utils/blacklist.c: the linked list of protected paths.
--
-- What the kernel answers to the calls that one operation makes stands in a record: whether an
-- allocation succeeds, the memory that `kmalloc` hands out with what it holds, and what
-- `copy_from_user` leaves in the buffer. The loops run on fuel, and `hang` says that it ran out.
-- The buffers that only one call uses are values, so their `kfree` changes nothing here.
pub mod Unique
pub mod Add
pub mod Keeps
pub mod Remove
pub mod Undo
use reference_monitor.Base.{
  ℕ, zero, suc, ◌-◌, ◌%◌, ◌^◌, Bool, not, Option, none, some, List, ◌==◌, if◌then◌else◌,
}
use reference_monitor.Base.Int.{ℤ, pos, enomem, eagain, eexist, einval}
use reference_monitor.Run.{null_deref, overrun, hang, done, Cmd, pure, fail, ◌>>=◌, ◌>>◌}
use reference_monitor.CString.{c_str, str_eq}
use reference_monitor.Monitor.{
  Ptr, null, FilePath, node, Monitor, load, store, set_next, set_head, grow, shrink, spin_lock,
  spin_unlock,
}

-- `copy_from_user`: how many bytes were not copied, and the kernel's buffer afterwards.
pub record UserCopy : Type 0 where
  pub left : ℕ
  pub bytes : List ℕ

-- `ret == -1` for the `int ret` that the count is stored in
abbrev pub is_minus_one : ℕ → Bool
is_minus_one n = (n % 2 ^ 32) == (2 ^ 32 - 1)

-- The memory of a new node: its address, and what its `next` happens to hold.
pub record Block : Type 0 where
  pub address : Ptr
  pub stale : Ptr

pub record AddEnv : Type 0 where
  pub buffer : Bool
  pub copy : UserCopy
  pub block : Option Block
  pub path_buffer : Bool

pub record RemoveEnv : Type 0 where
  pub buffer : Bool
  pub copy : UserCopy

abbrev get_head : Cmd Monitor Ptr
get_head m = done m.head m

-- `rf->blacklist_size++; spin_unlock(&rf->lock); ... return 0;`
added : Cmd Monitor ℤ
added = do grow; spin_unlock; pure (pos 0)

exists : Cmd Monitor ℤ
exists = do spin_unlock; pure eexist

-- The loop over the nodes that have a successor, and the comparison with the last node.
walk : ℕ → (curr : Ptr) → FilePath → (new : Ptr) → Cmd Monitor ℤ
unfolding added exists
walk zero curr s new = fail hang
walk (suc k) curr s new = do
  n ← load curr
  let rest = walk k n.next s new
  if n.next == null
      then (if str_eq n.path s then exists else (set_next curr new >> added))
      else (if str_eq n.path s then exists else rest)

-- The part of `add_to_blacklist` under the lock.
link : ℕ → FilePath → (new : Ptr) → Cmd Monitor ℤ
unfolding walk
link fuel s new = do
  spin_lock
  curr ← get_head
  if curr == null then (set_head new >> added) else do
    n ← load curr
    if n.next == null
        then (if str_eq n.path s then exists else (set_next curr new >> added))
        else walk fuel curr s new

-- `strcpy(new->path, kernel_rel_path)` into the new node, then the insertion
insert : ℕ → List ℕ → Block → Cmd Monitor ℤ
unfolding link
insert fuel bytes b = elim (c_str bytes) [
  | none ↦ fail overrun
  | some s ↦ store b.address (node s b.stale) >> link fuel s b.address
]

unfoldable pub add_to_blacklist : ℕ → AddEnv → Cmd Monitor ℤ
unfolding insert
add_to_blacklist fuel e =
    if not e.buffer
    then pure enomem
    else if is_minus_one e.copy.left
    then pure eagain
    else elim e.block [
      | none ↦ pure enomem
      | some b ↦ if e.path_buffer then insert fuel e.copy.bytes b else fail null_deref
    ]

not_found : Cmd Monitor ℤ
not_found = do spin_unlock; pure einval

found : Cmd Monitor ℤ
found = do spin_unlock; pure (pos 0)

-- `while (curr != NULL && strcmp(curr->path, kernel_path) != 0)`, and what follows it
search_loop : ℕ → (prev curr : Ptr) → FilePath → Cmd Monitor ℤ
unfolding not_found found
search_loop zero prev curr s = fail hang
search_loop (suc k) prev curr s = if curr == null then not_found else do
  n ← load curr
  let rest = search_loop k curr n.next s
  if str_eq n.path s then (set_next prev n.next >> found) else rest

-- The part of `remove_from_blacklist` under the lock. `prev` is not set before the loop sets it.
unlink : ℕ → FilePath → Cmd Monitor ℤ
unfolding search_loop
unlink fuel s = do
  spin_lock
  curr ← get_head
  if curr == null then not_found else do
    n ← load curr
    if str_eq n.path s then (set_head n.next >> (shrink >> found)) else search_loop fuel null curr s

-- Both ways out print the path, and the print needs its terminator.
unfoldable pub remove_from_blacklist : ℕ → RemoveEnv → Cmd Monitor ℤ
unfolding unlink
remove_from_blacklist fuel e =
    if e.buffer
    then (if is_minus_one e.copy.left
        then pure eagain
        else elim (c_str e.copy.bytes) [ none ↦ fail overrun | some s ↦ unlink fuel s ])
    else pure enomem

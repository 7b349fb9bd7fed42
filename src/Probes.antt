-- ===== src/Probes.antt =====
-- reference-monitor/kprobes/kprobes.c: the entry handlers of the ten return probes.
--
-- A handler finds its objects through registers. Here it is given what the kernel answers when it
-- asks for their paths, and whether `kstrdup` has memory for the message. `sprintf` writes the
-- message into 256 bytes on the stack, the terminator included.
pub mod Decides
pub mod Mediation
pub mod Table
use reference_monitor.Base.{
  Bool, List, Option, String, [], codes, if◌then◌else◌, length, ltb, none, not, some, ℕ, ◌%◌, ◌++◌,
  ◌/◌, ◌==◌, ◌||◌, ◌∷◌,
}
use reference_monitor.Access.{is_blacklisted}
use reference_monitor.Base.Int.{eacces, ℤ}
use reference_monitor.DentryPath.{PathEnv, get_path_from_dentry}
use reference_monitor.Log.{Log, TaskEnv, write_on_log}
use reference_monitor.Monitor.{FilePath, Monitor, null}
use reference_monitor.Run.{Cmd, fail, overflow, pure, ◌>>=◌, ◌>>◌}

-- What a handler returns, and the `error_message` that it leaves for the return handler: 0 has the
-- return handler run, 1 has it skipped.
pub record Entry : Type 0 where
  pub ret : ℕ
  pub message : Option (List ℕ)

abbrev pub pass : Entry
pass = record { ret = 1; message = none }

-- `"%s"` of a string that may be NULL
abbrev shown : Option FilePath → List ℕ
shown none = codes "(null)"
shown (some s) = s

-- `MODNAME ": [ERROR] " what " " path " blocked\n"`
unfoldable pub message_of : String → Option FilePath → List ℕ
message_of what path =
    codes "STACK REFERENCE MONITOR: [ERROR] "
    ++ (codes what ++ (32 ∷ (shown path ++ (codes " blocked" ++ 10 ∷ []))))

-- `sprintf` into `error_message`, `kstrdup` of it, and `return 0`
unfoldable pub block : String → Option FilePath → Bool → Cmd Monitor Entry
block what path dup =
    if ltb (length (message_of what path)) 256
    then pure (record { ret = 0; message = if dup then some (message_of what path) else none })
    else fail overflow

-- What a call shows to its probe: the flags of the opened file, the paths of the object that it
-- names first and of the other (the new name of a link or a rename, the parent of a directory).
pub record Request : Type 0 where
  pub flags : ℕ
  pub object : PathEnv
  pub other : PathEnv
  pub dup : Bool

-- `flags & bit` for a flag with one bit
abbrev has_flag : ℕ → ℕ → Bool
has_flag flags bit = not (((flags / bit) % 2) == 0)

-- O_WRONLY, O_RDWR, O_CREAT, O_APPEND and O_TRUNC
unfoldable pub wants_write : ℕ → Bool
wants_write flags =
    has_flag flags 0x1
    || has_flag flags 0x2
    || has_flag flags 0x40
    || has_flag flags 0x400
    || has_flag flags 0x200

-- One path decides.
unfoldable pub guard_path : String → ℕ → Option FilePath → Bool → Cmd Monitor Entry
guard_path what fuel path dup = do
  hit ← is_blacklisted fuel path
  if hit == 1 then block what path dup else pure pass

unfoldable pub open_entry_handler : ℕ → Request → Cmd Monitor Entry
open_entry_handler fuel q =
    if wants_write q.flags
    then guard_path "vfs open on file" fuel (get_path_from_dentry q.object) q.dup
    else pure pass

-- Two paths decide, the second only if the first does not.
unfoldable pub guard_paths :
    String → String → ℕ → Option FilePath → Option FilePath → Bool → Cmd Monitor Entry
guard_paths what what' fuel old new dup = do
  hit ← is_blacklisted fuel old
  if hit == 1 then block what old dup else guard_path what' fuel new dup

unfoldable pub inode_link_entry_handler : ℕ → Request → Cmd Monitor Entry
inode_link_entry_handler fuel q =
    guard_paths "Link on dir" "Link on dir" fuel (get_path_from_dentry q.object)
      (get_path_from_dentry q.other) q.dup

unfoldable pub inode_symlink_entry_handler : ℕ → Request → Cmd Monitor Entry
inode_symlink_entry_handler fuel q =
    guard_path "Unlink on dir" fuel (get_path_from_dentry q.object) q.dup

unfoldable pub inode_unlink_entry_handler : ℕ → Request → Cmd Monitor Entry
inode_unlink_entry_handler fuel q =
    guard_path "Unlink on dir" fuel (get_path_from_dentry q.object) q.dup

unfoldable pub inode_create_entry_handler : ℕ → Request → Cmd Monitor Entry
inode_create_entry_handler fuel q =
    guard_path "Create on file" fuel (get_path_from_dentry q.object) q.dup

unfoldable pub inode_mkdir_entry_handler : ℕ → Request → Cmd Monitor Entry
inode_mkdir_entry_handler fuel q =
    guard_path "Mkdir on file" fuel (get_path_from_dentry q.object) q.dup

unfoldable pub inode_rename_entry_handler : ℕ → Request → Cmd Monitor Entry
inode_rename_entry_handler fuel q =
    guard_paths "Rename on dir" "Link on dir" fuel (get_path_from_dentry q.object)
      (get_path_from_dentry q.other) q.dup

-- The parent's path is asked for only if the directory's own does not decide, and the message names
-- the directory either way.
unfoldable pub inode_rmdir_entry_handler : ℕ → Request → Cmd Monitor Entry
inode_rmdir_entry_handler fuel q = do
  hit ← is_blacklisted fuel (get_path_from_dentry q.object)
  if hit == 1 then block "Rmdir on file" (get_path_from_dentry q.object) q.dup else do
    hit ← is_blacklisted fuel (get_path_from_dentry q.other)
    if hit == 1 then block "Rmdir on file" (get_path_from_dentry q.object) q.dup else pure pass

unfoldable pub vfs_write_entry_handler : ℕ → Request → Cmd Monitor Entry
vfs_write_entry_handler fuel q =
    guard_path "Write on file" fuel (get_path_from_dentry q.object) q.dup

unfoldable pub vfs_lseek_entry_handler : ℕ → Request → Cmd Monitor Entry
vfs_lseek_entry_handler fuel q =
    guard_path "Lseek on file" fuel (get_path_from_dentry q.object) q.dup

-- `regs->ax = -EACCES`, and the entry in the log
unfoldable pub ret_handler : TaskEnv → ℤ → Cmd Log ℤ
ret_handler t ax = do write_on_log t; pure eacces

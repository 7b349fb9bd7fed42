-- ===== src/LogFs/Mount.antt =====
-- log-filesystem/file_system.c and `onefilefs_lookup` of file.c: mounting a device, and finding its
-- file. A 64-bit field of a block on the device is eight bytes, the lowest first. Time stamps, modes
-- and the tables of operations are not part of the model.
use reference_monitor.Base.{
  Bool, List, Option, [], codes, drop, if◌then◌else◌, none, not, some, suc, zero, ℕ, ◌*◌, ◌+◌, ◌==◌,
  ◌∷◌,
}
use reference_monitor.Base.Int.{ebadf, eio, enomem, pos, ℤ}
use reference_monitor.CString.{str_eq}
use reference_monitor.LogFs.{Fs, sb_bread}
use reference_monitor.Probes.{block}
use reference_monitor.Run.{Cmd, done, fail, fault, null_deref, pure, ◌>>=◌, ◌>>◌}

unfoldable pub little : ℕ → List ℕ → ℕ
little zero bytes = 0
little (suc k) [] = 0
little (suc k) (b ∷ bytes) = b + 256 * little k bytes

-- The `uint64_t` at an offset
unfoldable pub uint64_at : ℕ → List ℕ → ℕ
unfolding little
uint64_at offset block = little 8 (drop offset block)

-- `MAGIC`
abbrev pub magic : ℕ
magic = 1111638594

-- The device, the magic number of the superblock, and the number of the root's inode once there is a
-- root.
pub record Super : Type 0 where
  pub fs : Fs
  pub s_magic : ℕ
  pub s_root : Option ℕ

-- What the kernel answers: an inode for the root, and a dentry for it.
pub record MountEnv : Type 0 where
  pub root_inode : Bool
  pub root_dentry : Bool

set_magic : Cmd Super (Unit {0})
set_magic s = done tt (record s { s_magic = magic })

set_root : Option ℕ → Cmd Super (Unit {0})
set_root r s = done tt (record s { s_root = r })

-- A call on the file system of a superblock
on_fs : {A : Type 0} → Cmd Fs A → Cmd Super A
on_fs c s = elim (c s.fs) [ done a fs ↦ done a (record s { fs = fs }) | fault f ↦ fault f ]

-- The guard against a NULL buffer tests `sb`, which is never NULL.
unfoldable pub singlefilefs_fill_super : MountEnv → Cmd Super ℤ
unfolding set_magic set_root on_fs
singlefilefs_fill_super e = do
  set_magic
  bh ← on_fs (sb_bread 0)
  elim bh [
    | none ↦ fail null_deref
    | some block ↦
        if not (uint64_at 8 block == magic)
        then pure ebadf
        else if not e.root_inode
        then pure enomem
        else if not e.root_dentry
        then (do set_root none; pure enomem)
        else (do set_root (some 10); pure (pos 0))
  ]

-- `iget_locked`: NULL, the inode from the cache, or a new one
pub data InodeGot : Type 0 where
  no_inode cached fresh : InodeGot

-- The dentry is given back with an inode or as it came, or the lookup ends with NULL or an error.
pub data Looked : Type 0 where
  bound unbound not_found : Looked
  failed : ℤ → Looked

-- `UNIQUE_FILE_NAME`
abbrev pub unique_file_name : List ℕ
unique_file_name = codes "ref_monitor_log.txt"

set_size : ℕ → Cmd Fs (Unit {0})
set_size k fs = done tt (record fs { i_size = k })

read_inode : Cmd Fs Looked
unfolding set_size
read_inode = do
  bh ← sb_bread 1
  elim bh [ none ↦ pure (failed eio) | some block ↦ do set_size (uint64_at 24 block); pure bound ]

unfoldable pub onefilefs_lookup : InodeGot → (name : List ℕ) → Cmd Fs Looked
unfolding read_inode
onefilefs_lookup got name =
    if not (str_eq name unique_file_name)
    then pure not_found
    else elim got [ no_inode ↦ pure (failed enomem) | cached ↦ pure unbound | fresh ↦ read_inode ]

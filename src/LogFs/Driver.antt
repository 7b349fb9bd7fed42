-- ===== src/LogFs/Driver.antt =====
-- log-filesystem/file_system.c: loading and unloading the module, mounting and unmounting a device.
-- What the kernel does when a type of file systems is registered, or when a device is mounted with
-- the module's function, is the kernel's.
use reference_monitor.Base.{Bool, List, codes, false, refl, ℕ, ◌≡◌}
use reference_monitor.Base.Int.{pos, ℤ}
use reference_monitor.LogFs.Mount.{MountEnv, Super, singlefilefs_fill_super}
use reference_monitor.Run.{Cmd, Run, and_then, done, fault, pure, ◌>>=◌, ◌>>◌}

-- `onefilefs_type`: its name, and what it mounts and unmounts with
pub record FsType : Type 0 where
  pub name : List ℕ
  pub mount : MountEnv → Cmd Super ℤ
  pub kill_sb : Cmd Super (Unit {0})

-- The kernel's calls, over the kernel's state. A pointer that `IS_ERR` holds of is its error code.
pub record FsCalls (K : Type 0) : Type 0 where
  pub register_filesystem : FsType → Cmd K ℤ
  pub unregister_filesystem : FsType → Cmd K ℤ
  pub mount_bdev : Cmd Super ℤ → Cmd Super ℤ
  pub kill_block_super : Cmd Super (Unit {0})

-- The kernel's state, and whether `mutex` is held.
pub record Driver (K : Type 0) : Type 0 where
  pub kernel : K
  pub held : Bool

module _ {K : Type 0} (calls : FsCalls K) where
  unfoldable singlefilefs_kill_superblock : Cmd Super (Unit {0})
  singlefilefs_kill_superblock = calls.kill_block_super

  unfoldable singlefilefs_mount : MountEnv → Cmd Super ℤ
  singlefilefs_mount e = calls.mount_bdev (singlefilefs_fill_super e)

  unfoldable onefilefs_type : FsType
  unfolding singlefilefs_mount singlefilefs_kill_superblock
  onefilefs_type = record {
    name = codes "singlefilefs";
    mount = singlefilefs_mount;
    kill_sb = singlefilefs_kill_superblock;
  }

  with_driver : {A : Type 0} → Driver K → Run K A → Run (Driver K) A
  with_driver s (done a k) = done a (record s { kernel = k })
  with_driver s (fault f) = fault f

  mutex_init : Cmd (Driver K) (Unit {0})
  mutex_init s = done tt (record s { held = false })

  -- `mutex` is made ready after the registration, and also when that fails.
  unfoldable singlefilefs_init : Cmd (Driver K) ℤ
  unfolding with_driver mutex_init onefilefs_type
  singlefilefs_init = do
    ret ← (λ s. with_driver s (calls.register_filesystem onefilefs_type s.kernel))
    mutex_init
    pure ret

  -- An error of the kernel is only printed.
  unfoldable singlefilefs_exit : Cmd (Driver K) (Unit {0})
  unfolding with_driver onefilefs_type
  singlefilefs_exit = do
    ret ← (λ s. with_driver s (calls.unregister_filesystem onefilefs_type s.kernel))
    pure tt

  -- When the kernel registers the type and gives it up again as it was, loading and unloading leave
  -- the kernel's state, and the mutex free.
  singlefilefs_exit-init :
      (s : Driver K) (k : K) (r : ℤ)
      → calls.register_filesystem onefilefs_type s.kernel ≡ done (pos 0) k
      → calls.unregister_filesystem onefilefs_type k ≡ done r s.kernel
      → and_then (singlefilefs_init s) (λ ret. singlefilefs_exit)
        ≡ done tt (record s { held = false })
  unfolding singlefilefs_init singlefilefs_exit with_driver mutex_init
  singlefilefs_exit-init s k r added taken = rw (added, taken) refl

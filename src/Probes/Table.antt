-- ===== src/Probes/Table.antt =====
-- The probes as the kernel sees them: how kprobes.c sets them up, arms and disarms them.
use reference_monitor.Base.{Bool, List, Option, [], if◌then◌else◌, none, some, true, ℕ, ◌∷◌}
use reference_monitor.Base.Int.{enomem, negsuc, ℤ}
use reference_monitor.Monitor.{Monitor}
use reference_monitor.Probes.{
  Entry, Request, inode_create_entry_handler, inode_link_entry_handler, inode_mkdir_entry_handler,
  inode_rename_entry_handler, inode_rmdir_entry_handler, inode_symlink_entry_handler,
  inode_unlink_entry_handler, open_entry_handler, vfs_lseek_entry_handler, vfs_write_entry_handler,
}
use reference_monitor.Run.{Cmd, done, fault, null_deref}

-- The probed functions of the kernel.
pub data Symbol : Type 0 where
  security_file_open : Symbol
  security_inode_unlink : Symbol
  security_inode_link : Symbol
  security_inode_symlink : Symbol
  security_inode_create : Symbol
  security_inode_mkdir : Symbol
  security_inode_rename : Symbol
  security_inode_rmdir : Symbol
  vfs_write : Symbol
  vfs_llseek : Symbol

abbrev pub Handler : Type 0
Handler = ℕ → Request → Cmd Monitor Entry

-- struct kretprobe: the fields that `set_kretprobe` fills. The return handler is one for all.
pub record Probe : Type 0 where
  pub symbol : Symbol
  pub disabled : Bool
  pub entry : Handler
  pub maxactive : ℤ
  pub data_size : ℕ

-- `sizeof(struct probe_data)`: one pointer
unfoldable pub set_kretprobe : Symbol → Handler → Probe
set_kretprobe s h = record {
  symbol = s;
  disabled = true;
  entry = h;
  maxactive = negsuc 0;
  data_size = 8;
}

-- The array of probes that is registered, in its order.
unfoldable pub kprobe_array : List Probe
unfolding set_kretprobe
kprobe_array =
    set_kretprobe security_file_open open_entry_handler
    ∷ set_kretprobe security_inode_unlink inode_unlink_entry_handler
    ∷ set_kretprobe security_inode_create inode_create_entry_handler
    ∷ set_kretprobe security_inode_mkdir inode_mkdir_entry_handler
    ∷ set_kretprobe security_inode_rename inode_rename_entry_handler
    ∷ set_kretprobe security_inode_rmdir inode_rmdir_entry_handler
    ∷ set_kretprobe security_inode_link inode_link_entry_handler
    ∷ set_kretprobe security_inode_symlink inode_symlink_entry_handler
    ∷ set_kretprobe vfs_write vfs_write_entry_handler
    ∷ set_kretprobe vfs_llseek vfs_lseek_entry_handler
    ∷ []

-- The kernel's calls on probes: the probe or the array afterwards, and the status.
pub record ProbeApi : Type 0 where
  pub enable_kretprobe : Probe → Probe × ℤ
  pub disable_kretprobe : Probe → Probe × ℤ
  pub register_kretprobes : List Probe → List Probe × ℤ
  pub unregister_kretprobes : List Probe → List Probe

-- The global `kprobe_array`, which is NULL until `kretprobe_init` has allocated it.
abbrev pub Probes : Type 0
Probes = Option (List Probe)

-- The loops over the array. A status of -1 only leads to a line in the kernel's log.
unfoldable pub enable_loop : ProbeApi → List Probe → List Probe
enable_loop api [] = []
enable_loop api (p ∷ ps) = (api.enable_kretprobe p).0 ∷ enable_loop api ps

unfoldable pub disable_loop : ProbeApi → List Probe → List Probe
disable_loop api [] = []
disable_loop api (p ∷ ps) = (api.disable_kretprobe p).0 ∷ disable_loop api ps

-- Both read the array through the pointer, also when it is NULL.
unfoldable pub enable_kprobes : ProbeApi → Cmd Probes (Unit {0})
unfolding enable_loop
enable_kprobes api none = fault null_deref
enable_kprobes api (some ps) = done tt (some (enable_loop api ps))

unfoldable pub disable_kprobes : ProbeApi → Cmd Probes (Unit {0})
unfolding disable_loop
disable_kprobes api none = fault null_deref
disable_kprobes api (some ps) = done tt (some (disable_loop api ps))

unfoldable pub kretprobe_init : ProbeApi → (array_buffer : Bool) → Cmd Probes ℤ
unfolding kprobe_array
kretprobe_init api array_buffer ps =
    if array_buffer
    then (let (registered, ret) = api.register_kretprobes kprobe_array in
        done ret (some registered))
    else done enomem none

-- The array is given back, and the pointer stays as it is.
unfoldable pub kretprobe_clean : ProbeApi → Cmd Probes (Unit {0})
kretprobe_clean api none = fault null_deref
kretprobe_clean api (some ps) = done tt (some (api.unregister_kretprobes ps))

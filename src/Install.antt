-- ===== src/Install.antt =====
-- `initialize_syscalls` and the table part of `cleanup_module` of
-- reference-monitor/stack_reference_monitor.c, with the write protection of
-- reference-monitor/syscall-mount/scth.c.
pub mod Restore
use reference_monitor.Base.{
  Bool, List, [], if◌then◌else◌, none, not, some, ℕ, ◌%◌, ◌*◌, ◌-◌, ◌/◌, ◌==◌, ◌^◌, ◌∷◌,
}
use reference_monitor.Base.Int.{erange, pos, ℤ}
use reference_monitor.Run.{Cmd, done, fault, protection, pure, ◌>>=◌, ◌>>◌}
use reference_monitor.SyscallTable.{Table, get_entries}

-- The CR0 register and the system call table, and the module's globals for them: the saved `cr0`,
-- `restore` and `the_ni_syscall`. The six codes are copies of `restore`.
pub record Kernel : Type 0 where
  pub cr0 : ℕ
  pub table : Table
  pub saved : ℕ
  pub restore : List ℕ
  pub ni_syscall : ℕ
  pub call_codes : List ℕ

-- Bit 16 of CR0, X86_CR0_WP: while it is set, the kernel cannot write to read-only pages.
unfoldable pub is_protected : ℕ → Bool
is_protected cr0 = not (((cr0 / 2 ^ 16) % 2) == 0)

unfoldable pub unprotect_memory : Cmd Kernel (Unit {0})
unprotect_memory k =
    done tt (record k { saved = k.cr0; cr0 = k.cr0 - ((k.cr0 / 2 ^ 16) % 2) * 2 ^ 16 })

unfoldable pub protect_memory : Cmd Kernel (Unit {0})
protect_memory k = done tt (record k { cr0 = k.saved })

unfoldable pub update : Table → ℕ → ℕ → Table
update p i v j = if j == i then v else p j

-- A write to the table, whose pages are read-only.
unfoldable pub write_entry : ℕ → ℕ → Cmd Kernel (Unit {0})
write_entry i v k =
    if is_protected k.cr0
    then fault protection
    else done tt (record k { table = update k.table i v })

-- `for (i = 0; i < HACKED_ENTRIES; i++) table[restore[i]] = new_sys_call_array[i];`
install_loop : List ℕ → List ℕ → Cmd Kernel (Unit {0})
install_loop [] vs = pure tt
install_loop (i ∷ is) [] = pure tt
install_loop (i ∷ is) (v ∷ vs) = write_entry i v >> install_loop is vs

-- `for (i = 0; i < HACKED_ENTRIES; i++) table[restore[i]] = the_ni_syscall;`
restore_loop : List ℕ → ℕ → Cmd Kernel (Unit {0})
restore_loop [] v = pure tt
restore_loop (i ∷ is) v = write_entry i v >> restore_loop is v

-- HACKED_ENTRIES
abbrev pub hacked_entries : ℕ
hacked_entries = 6

set_found : List ℕ × ℕ → Cmd Kernel (Unit {0})
set_found (es, v) k = done tt (record k { restore = es; ni_syscall = v })

set_codes : Cmd Kernel (Unit {0})
set_codes k = done tt (record k { call_codes = k.restore })

-- `calls` are the addresses of the module's six system calls.
unfoldable pub initialize_syscalls : (calls : List ℕ) → Cmd Kernel ℤ
unfolding install_loop set_found set_codes
initialize_syscalls calls k = elim (get_entries k.table hacked_entries) [
  | none ↦ done erange k
  | some r ↦
      (do
        set_found r
        unprotect_memory
        install_loop r.0 calls
        protect_memory
        set_codes
        pure (pos 0))
        k
]

unfoldable pub restore_table : Cmd Kernel (Unit {0})
unfolding restore_loop
restore_table k = (do unprotect_memory; restore_loop k.restore k.ni_syscall; protect_memory) k

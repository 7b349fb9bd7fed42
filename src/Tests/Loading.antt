-- ===== src/Tests/Loading.antt =====
-- Loading and unloading at a concrete system call table.
use reference_monitor.Base.{
  Bool, List, [], arith, false, if◌then◌else◌, map, none, refl, some, true, ℕ, ◌+◌, ◌==◌, ◌^◌, ◌||◌,
  ◌↔◌, ◌∷◌, ◌≡◌,
}
use reference_monitor.Access.{is_blacklisted}
use reference_monitor.Access.Cover.{Covers}
use reference_monitor.Access.Decision.{is_active}
use reference_monitor.Base.Int.{eq_pos, pos, ℤ}
use reference_monitor.Checks.{rf_off}
use reference_monitor.Init.{Module, init_module}
use reference_monitor.Init.Served.{init_module-Served, start_view}
use reference_monitor.Init.Start.{init_module-Inv}
use reference_monitor.Init.Undigested.{init_module-Undigested, no_transform, unkeyed}
use reference_monitor.Install.{Kernel, initialize_syscalls, restore_table}
use reference_monitor.Install.Restore.{among, initialize_syscalls-installed, load_unload}
use reference_monitor.Monitor.{FilePath}
use reference_monitor.Password.{HashEnv, hex, holds}
use reference_monitor.Run.{Returns, Run, and_then, done, fault, pure}
use reference_monitor.SyscallTable.{Table, get_entries}
use reference_monitor.SyscallTable.Entries.{Found, get_entries-Found}
use reference_monitor.Syscalls.{World, sys_get_rf_state}
use reference_monitor.Syscalls.Call.{call, get}
use reference_monitor.Syscalls.Keeps.{Inv}
use reference_monitor.Syscalls.Histories.{step, stop}
use reference_monitor.Syscalls.Spec.{read_state, spec}
use reference_monitor.Syscalls.Spec.Asks.{asks_state}
use reference_monitor.Syscalls.Spec.Served.{Served, finish, serve}
use reference_monitor.Tests.Data.{api, api-Obeys, demo, file_a, hash_env, secret, sha}

-- The free entries that user.h lists: they all hold the address 7 of `sys_ni_syscall`, any other
-- entry one of its own.
abbrev is_free : ℕ → Bool
is_free i = i == 134 || i == 156 || i == 174 || i == 177 || i == 178 || i == 180

abbrev table : Table
table i = if is_free i then 7 else 1000 + i

abbrev free_entries : List ℕ × ℕ
free_entries = (134 ∷ 156 ∷ 174 ∷ 177 ∷ 178 ∷ 180 ∷ [], 7)

finds : get_entries table 6 ≡ some free_entries
unfolding get_entries
finds = refl

abbrev kernel : Kernel
kernel = record {
  cr0 = 2 ^ 16 + 1;
  table = table;
  saved = 0;
  restore = [];
  ni_syscall = 0;
  call_codes = [];
}

abbrev calls : List ℕ
calls = 21 ∷ 22 ∷ 23 ∷ 24 ∷ 25 ∷ 26 ∷ []

get_entries-Found_example : Found table 6 free_entries
get_entries-Found_example = get_entries-Found table 6 free_entries finds

initialize_syscalls-installed_example :
    Returns
      (λ ret k'.
        (ret ≡ pos 0)
        × (k'.cr0 ≡ kernel.cr0)
        × (k'.call_codes ≡ free_entries.0)
        × (k'.restore ≡ free_entries.0)
        × (map k'.table free_entries.0 ≡ calls)
        × ((j : ℕ) → among j free_entries.0 ≡ false → k'.table j ≡ table j))
      (initialize_syscalls calls kernel)
initialize_syscalls-installed_example =
    initialize_syscalls-installed calls kernel free_entries refl finds

load_unload_example :
    Returns
      (λ _ k'. ((j : ℕ) → k'.table j ≡ kernel.table j) × (k'.cr0 ≡ kernel.cr0))
      (and_then
        (initialize_syscalls calls kernel)
        (λ ret. if eq_pos ret 0 then restore_table else pure tt))
load_unload_example = load_unload calls kernel

abbrev unloaded : Module
unloaded = record { kernel = kernel; world = record { rf = demo; probes = none } }

demo_loads :
    Returns
      (λ ret m'.
        (ret ≡ pos 0)
        × (m'.world.rf.state ≡ rf_off)
        × (m'.world.rf.password ≡ some (hex (sha.digest secret)))
        × (m'.world.rf.size ≡ 0)
        × Inv m'.world)
      (init_module sha api calls (holds secret) hash_env true unloaded)
demo_loads =
    init_module-Inv sha api secret hash_env calls unloaded free_entries finds
      (record { transform = refl; desc = refl; digest_buffer = refl; status = refl; result = refl })
      refl refl

-- What a run that comes back gives.
ran :
    (P : ℤ → Module → Type 0) (r : Run Module ℤ)
    → Returns P r
    → (a : ℤ) × (m : Module) × (r ≡ done a m) × P a m
ran P (done a m) h = (a, m, refl, h)
ran P (fault f) h = elim h [ ]

loading :
    (a : ℤ) × (m : Module) × (init_module sha api calls (holds secret) hash_env true unloaded
      ≡ done a m)
    × ((a ≡ pos 0)
        × (m.world.rf.state ≡ rf_off)
        × (m.world.rf.password ≡ some (hex (sha.digest secret)))
        × (m.world.rf.size ≡ 0)
        × Inv m.world)
loading = ran _ (init_module sha api calls (holds secret) hash_env true unloaded) demo_loads

abbrev loaded_world : World
loaded_world = loading.1.world

-- Another user looks at the state.
look : call 5 sha api 1000 (get true) loaded_world ≡ done loaded_world.rf.state loaded_world
unfolding call sys_get_rf_state
look = refl

one_look : Served 5 sha api secret start_view loaded_world start_view loaded_world
unfolding spec
one_look =
    serve 1000 (get true) (read_state true) none false loaded_world.rf.state (asks_state true) tt
      (omega (arith, loading.3.3)) (omega (arith, loading.3.3)) look finish

init_module-Served_example :
    (loading.0 ≡ pos 0)
    × ((is_blacklisted 5 (some file_a) loaded_world.rf ≡ done 1 loaded_world.rf)
        ↔ ((is_active rf_off ≡ true) × (p : FilePath) × (false ≡ true) × Covers p file_a))
init_module-Served_example =
    init_module-Served 5 sha api secret hash_env api-Obeys calls unloaded loading.1 loading.0
      free_entries start_view loaded_world file_a finds
      (record { transform = refl; desc = refl; digest_buffer = refl; status = refl; result = refl })
      refl refl loading.2 one_look (omega (arith, loading.3.3))

-- The kernel has no transform while the module is loaded; then another user looks at the state.
abbrev no_sha : HashEnv
no_sha = record hash_env { transform = false }

abbrev keyless : World
keyless = (unkeyed api calls true unloaded free_entries).world

keyless_look : call 5 sha api 1000 (get true) keyless ≡ done (pos 1) keyless
unfolding call sys_get_rf_state
keyless_look = refl

init_module-Undigested_example :
    (init_module sha api calls (holds secret) no_sha true unloaded
      ≡ done (pos 0) (unkeyed api calls true unloaded free_entries))
    × (keyless ≡ keyless)
    × (is_blacklisted 5 (some file_a) keyless.rf ≡ done 0 keyless.rf)
init_module-Undigested_example =
    init_module-Undigested 5 sha api calls secret no_sha true unloaded free_entries keyless file_a
      finds (no_transform refl) refl (step 1000 (get true) (pos 1) tt keyless_look stop)

-- ===== src/Init/Served.antt =====
-- From the loading of the module to its decisions.
use reference_monitor.Base.{List, [], arith, false, refl, some, subst, true, ℕ, ◌<◌, ◌↔◌, ◌∷◌, ◌≡◌}
use reference_monitor.Access.{is_blacklisted}
use reference_monitor.Access.Cover.{Covers}
use reference_monitor.Access.Decision.{is_active}
use reference_monitor.Base.Int.{pos, ℤ}
use reference_monitor.Blacklist.Unique.{Unique}
use reference_monitor.Checks.{rf_off}
use reference_monitor.Init.{Module, init_module}
use reference_monitor.Init.Start.{Hashed, init_module-Inv}
use reference_monitor.Install.{hacked_entries}
use reference_monitor.Monitor.{FilePath, Monitor}
use reference_monitor.Monitor.Chain.{Cells}
use reference_monitor.Monitor.Edit.{contains}
use reference_monitor.Monitor.Invariant.{Holds}
use reference_monitor.Password.{HashEnv, Sha256, hex, holds}
use reference_monitor.Probes.Table.{ProbeApi, kprobe_array}
use reference_monitor.Run.{Returns, done}
use reference_monitor.SyscallTable.{get_entries}
use reference_monitor.Syscalls.{World}
use reference_monitor.Syscalls.Keeps.{Inv, Obeys}
use reference_monitor.Syscalls.Spec.{View}
use reference_monitor.Syscalls.Spec.Served.{Served, Served-decision}
use reference_monitor.Syscalls.Spec.Shows.{Shows}

-- What a loaded module shows: RF_OFF and no protected path.
abbrev pub start_view : View
start_view = record { state = rf_off; protects = λ q. false }

no_cells : (m : Monitor) (xs : Cells) → Holds m xs → m.size ≡ 0 → xs ≡ []
no_cells m [] h e = refl
no_cells m (x ∷ xs) h e = absurd (omega (arith, h.counted))

loaded-Shows :
    (sha : Sha256) (s : List ℕ) (w : World) (i : Inv w)
    → w.rf.state ≡ rf_off
    → w.rf.password ≡ some (hex (sha.digest s))
    → w.rf.size ≡ 0
    → Shows sha s start_view w
unfolding Unique contains
loaded-Shows sha s w i off kept none_yet =
    let empty = no_cells w.rf i.cells i.monitor none_yet in
    record {
      inv = i;
      kept = kept;
      unique = rw empty tt;
      state = off;
      protects = λ q. rw empty refl;
    }

module _ (fuel : ℕ) (sha : Sha256) (api : ProbeApi) (s : List ℕ) (h : HashEnv)
    (obeys : Obeys api) where
  -- The module is loaded with the password `s`: six free entries are found, the lock is free, and
  -- the kernel gives all memory, the digest and a registration that keeps the probes as they are;
  -- the probes obey. If loading comes back, it is with 0. Let any callers then make any number of
  -- calls, of all six kinds, that the kernel answers and that come back, each with room in the count
  -- and fuel for the list, and with memory for each new node that happens to hold NULL in `next`, which
  -- neither `kmalloc` nor the code sees to. With fuel for the list, `is_blacklisted` says 1 of a path exactly if, of what the
  -- specification makes of these calls from RF_OFF and no protected path on, the state is neither
  -- RF_OFF nor RF_REC_OFF and some protected path covers this one.
  pub init_module-Served :
      (calls : List ℕ) (m m' : Module) (ret : ℤ) (r : List ℕ × ℕ) (v' : View) (w' : World)
      (path : FilePath)
      → get_entries m.kernel.table hacked_entries ≡ some r
      → Hashed h
      → m.world.rf.locked ≡ false
      → (api.register_kretprobes kprobe_array).0 ≡ kprobe_array
      → init_module sha api calls (holds s) h true m ≡ done ret m'
      → Served fuel sha api s start_view m'.world v' w'
      → w'.rf.size < fuel
      → (ret ≡ pos 0)
        × ((is_blacklisted fuel (some path) w'.rf ≡ done 1 w'.rf) ↔ (
            (is_active v'.state ≡ true) × (p : FilePath) × (v'.protects p ≡ true) × Covers p path))
  init_module-Served calls m m' ret r v' w' path free hashed un reg run served lt =
      let (zero_so, off, kept, none_yet, i) =
        subst
          (Returns (λ ret m'.
            (ret ≡ pos 0)
            × (m'.world.rf.state ≡ rf_off)
            × (m'.world.rf.password ≡ some (hex (sha.digest s)))
            × (m'.world.rf.size ≡ 0)
            × Inv m'.world))
          run (init_module-Inv sha api s h calls m r free hashed un reg) in
      (
        zero_so,
        Served-decision fuel sha api s obeys start_view v' m'.world w' path
            (loaded-Shows sha s m'.world i off kept none_yet) served lt,
      )

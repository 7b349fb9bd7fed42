-- ===== src/Syscalls/Spec/Refines.antt =====
-- The system calls do what the specification says, for every caller.
use reference_monitor.Base.{
  Bool, List, Option, [], arith, false, if◌then◌else◌, length, refl, some, subst, sym, true, ℕ, ◌+◌,
  ◌<◌, ◌^◌, ◌∷◌, ◌≡◌,
}
use reference_monitor.Base.Int.{enomem}
use reference_monitor.Monitor.Chain.{Cells, Chain-none, paths}
use reference_monitor.Password.{PasswordEnv, Sha256}
use reference_monitor.Password.Check.{Answered}
use reference_monitor.Probes.Table.{ProbeApi}
use reference_monitor.Run.{IfDone-mono, Returns}
use reference_monitor.Syscalls.{World, sys_get_blacklist_size, sys_get_rf_state}
use reference_monitor.Syscalls.Call.{Call, Ends, add, call, print-IfDone, remove, switch, told}
use reference_monitor.Syscalls.Grant.{call-Declined, password_of}
use reference_monitor.Syscalls.Keeps.{Obeys}
use reference_monitor.Syscalls.Print.{sys_print_blacklist}
use reference_monitor.Syscalls.Spec.{Demand, Fits, View, denied, spec}
use reference_monitor.Syscalls.Spec.Allowed.{add_allowed, remove_allowed, switch_allowed}
use reference_monitor.Syscalls.Spec.Asks.{
  Asks, asks_add, asks_print, asks_remove, asks_size, asks_state, asks_switch,
}
use reference_monitor.Syscalls.Spec.Shows.{Allowed, Declined-Fits, Shows, not-Allowed}

length-paths : (xs : Cells) → length (paths xs) ≡ length xs
length-paths [] = refl
length-paths ((a, s) ∷ xs) = cc (length-paths xs)

module _ (fuel : ℕ) (sha : Sha256) (api : ProbeApi) (secret : List ℕ) (v : View) (w : World)
    (sh : Shows sha secret v w) (obeys : Obeys api) (lt : w.rf.size + 1 < fuel)
    (room : w.rf.size + 1 < 2 ^ 32) (euid : ℕ) where
  denied-Fits :
      (c : Call) {pw : PasswordEnv} {s : List ℕ}
      → password_of c ≡ some pw
      → Answered pw s
      → Allowed sha secret euid (some s) false
      → Returns (λ r w'. Shows sha secret v w' × Fits denied r) (call fuel sha api euid c w)
  denied-Fits c {pw} {s} e a iff = Declined-Fits sha secret v w sh (call fuel sha api euid c w) (
      call-Declined fuel sha api euid w pw s secret c e a sh.kept
        (not-Allowed sha s secret euid iff))

  state-Fits :
      (text : Bool)
      → Returns
          (λ r w'. Shows sha secret v w' × (r ≡ (if text then v.state else enomem)))
          (sys_get_rf_state text w)
  unfolding sys_get_rf_state
  state-Fits true = (sh, sh.state)
  state-Fits false = (sh, refl)

  -- The world shows the view, the probes obey, and the list's count has room for one more and is below
  -- the fuel by more than one. The kernel answers the call, and the memory for a new node happens to
  -- hold NULL in `next`, which neither `kmalloc` nor the code sees to. From any caller, every call but
  -- `sys_print_blacklist` then comes back; and every call, where it comes back, has a result that the
  -- specification promises, in a world that shows the view that it gives. Root with the password sets
  -- the state and, in the two reconfiguration states, protects a path or releases one; any other caller
  -- of these is denied with an error code, and the view is as it was. The state that is read is the
  -- view's, the count that is read is not below the number of protected paths, and the printing returns
  -- 0 or an error code; the view stays.
  pub call-Fits :
      (c : Call) (d : Demand) (g : Option (List ℕ)) (allowed : Bool)
      → Asks w c d g
      → Allowed sha secret euid g allowed
      → Ends c
          (λ r w'. Shows sha secret (spec allowed d v).0 w' × Fits (spec allowed d v).1 r)
          (call fuel sha api euid c w)
  unfolding spec call sys_get_blacklist_size
  call-Fits _ _ _ false (asks_switch {pw} {s} n text a) iff =
      denied-Fits (switch n pw text) refl a iff
  call-Fits _ _ _ true (asks_switch {pw} {s} n text a) iff =
      let (same, is_root) = iff.0 refl in
      rw is_root (switch_allowed fuel sha api secret v w sh obeys lt room pw s a same n text)
  call-Fits _ _ _ allowed (asks_state text) iff = state-Fits text
  call-Fits _ _ _ false (asks_add {pw} {s} {e} path b a copied mem is_new) iff =
      denied-Fits (add pw e) refl a iff
  call-Fits _ _ _ true (asks_add {pw} {s} {e} path b a copied mem is_new) iff =
      let (same, is_root) = iff.0 refl in
      rw is_root (
        add_allowed fuel sha api secret v w sh obeys lt room pw s a same e path b
          (record {
            buffer = copied.0;
            copied = copied.1;
            terminated = copied.2;
            block = mem.0;
            path_buffer = mem.1;
            not_null = is_new.0;
            fresh = Chain-none w.rf.nodes sh.inv.cells b.address sh.inv.monitor.list.chain is_new.1;
          })
          is_new.2)
  call-Fits _ _ _ false (asks_remove {pw} {s} {e} path a copied) iff =
      denied-Fits (remove pw e) refl a iff
  call-Fits _ _ _ true (asks_remove {pw} {s} {e} path a copied) iff =
      let (same, is_root) = iff.0 refl in
      rw is_root (
        remove_allowed fuel sha api secret v w sh obeys lt room pw s a same e path copied.0 copied.1
          copied.2)
  call-Fits _ _ _ allowed asks_size iff = (
    sh,
    (
      paths sh.inv.cells,
      w.rf.size,
      sh.unique,
      sh.protects,
      omega (arith, length-paths sh.inv.cells, sh.inv.monitor.counted),
      sh.inv.monitor.fits,
      refl,
    ),
  )
  call-Fits _ _ _ allowed (asks_print e asked) iff =
      IfDone-mono _ _ (told w (sys_print_blacklist fuel e asked w.rf)) (print-IfDone fuel e asked w)
        (λ r w' (answer, same). (subst (Shows sha secret v) (sym same) sh, answer))

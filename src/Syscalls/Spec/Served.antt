-- ===== src/Syscalls/Spec/Served.antt =====
-- Sequences of calls, and what the monitor decides after them.
use reference_monitor.Base.{
  Bool, List, Option, arith, some, subst, sym, true, ℕ, ◌+◌, ◌<◌, ◌^◌, ◌↔◌, ◌∙◌, ◌≡◌,
}
use reference_monitor.Access.{is_blacklisted}
use reference_monitor.Access.Cover.{Covers}
use reference_monitor.Access.Decision.{is_active, is_blacklisted_iff}
use reference_monitor.Base.Int.{ℤ}
use reference_monitor.Monitor.{FilePath}
use reference_monitor.Password.{Sha256}
use reference_monitor.Probes.Table.{ProbeApi}
use reference_monitor.Run.{done}
use reference_monitor.Syscalls.{World}
use reference_monitor.Syscalls.Call.{Call, Ends, Ends-done, call}
use reference_monitor.Syscalls.Keeps.{Obeys}
use reference_monitor.Syscalls.Spec.{Demand, Fits, View, spec}
use reference_monitor.Syscalls.Spec.Asks.{Asks}
use reference_monitor.Syscalls.Spec.Refines.{call-Fits}
use reference_monitor.Syscalls.Spec.Shows.{Allowed, Shows}

-- The views and the worlds before and after a sequence of calls, each from some caller, that the
-- kernel answers and that come back.
pub data Served (fuel : ℕ) (sha : Sha256) (api : ProbeApi) (secret : List ℕ)
    : View → World → View → World → Type 0 where
  finish : {v : View} {w : World} → Served fuel sha api secret v w v w
  serve :
      {v v' : View} {w w' w'' : World} (euid : ℕ) (c : Call) (d : Demand) (g : Option (List ℕ))
      (allowed : Bool) (r : ℤ)
      → Asks w c d g
      → Allowed sha secret euid g allowed
      → w.rf.size + 1 < fuel
      → w.rf.size + 1 < 2 ^ 32
      → call fuel sha api euid c w ≡ done r w'
      → Served fuel sha api secret (spec allowed d v).0 w' v' w''
      → Served fuel sha api secret v w v' w''

module _ (fuel : ℕ) (sha : Sha256) (api : ProbeApi) (secret : List ℕ) (obeys : Obeys api) where
  pub Served-Shows :
      (v v' : View) (w w' : World)
      → Shows sha secret v w
      → Served fuel sha api secret v w v' w'
      → Shows sha secret v' w'
  Served-Shows v _ w _ sh finish = sh
  Served-Shows v v' w w'' sh (serve {w' = w1} euid c d g allowed r asks may lt room run rest) =
      let (next, fits) =
        Ends-done c (λ r w'. Shows sha secret (spec allowed d v).0 w' × Fits (spec allowed d v).1 r)
          r w1
          (subst
            (Ends c
              (λ r w'. Shows sha secret (spec allowed d v).0 w' × Fits (spec allowed d v).1 r))
            run (call-Fits fuel sha api secret v w sh obeys lt room euid c d g allowed asks may)) in
      Served-Shows (spec allowed d v).0 v' w1 w'' next rest

  -- Start from a world that shows a view, with probes that obey, and let any callers make any
  -- number of calls, of all six kinds, that the kernel answers and that come back, each with room in
  -- the count and fuel for the list, and with memory for each new node that happens to hold NULL in
  -- `next`, which neither `kmalloc` nor the code sees to. Then, with fuel for the list, `is_blacklisted` says 1 of a path exactly if,
  -- of what the specification makes of these calls, the state is neither RF_OFF nor RF_REC_OFF and
  -- some protected path covers this one.
  pub Served-decision :
      (v v' : View) (w w' : World) (path : FilePath)
      → Shows sha secret v w
      → Served fuel sha api secret v w v' w'
      → w'.rf.size < fuel
      → (is_blacklisted fuel (some path) w'.rf ≡ done 1 w'.rf)
        ↔ ((is_active v'.state ≡ true) × (s : FilePath) × (v'.protects s ≡ true) × Covers s path)
  Served-decision v v' w w' path sh0 served lt =
      let sh = Served-Shows v v' w w' sh0 served in
      let iff =
        is_blacklisted_iff fuel w'.rf sh.inv.cells sh.inv.monitor
          (omega (arith, sh.inv.monitor.counted)) path in
      (
        λ e.
            let (act, s, i, c) = iff.0 e in
            (subst (λ z. is_active z ≡ true) sh.state act, s, sym (sh.protects s) ∙ i, c),
        λ (act, s, i, c).
            iff.1 (subst (λ z. is_active z ≡ true) (sym sh.state) act, s, sh.protects s ∙ i, c),
      )

-- ===== src/Syscalls/Spec/Handlers.antt =====
-- What the probes refuse after a sequence of calls.
use reference_monitor.Base.{
  Bool, List, arith, false, false≢true, get_elem?, refl, some, subst, subst₂, sym, true, ℕ, ◌&&◌,
  ◌<◌, ◌↔◌, ◌∙◌, ◌≡◌,
}
use reference_monitor.Access.Cover.{Covers, covered, covered_by, covered_iff}
use reference_monitor.Access.Decision.{is_active}
use reference_monitor.Monitor.{FilePath}
use reference_monitor.Monitor.Chain.{Cells, paths}
use reference_monitor.Password.{Sha256}
use reference_monitor.Probes.{Request, wants_write}
use reference_monitor.Probes.Decides.{Shown, decision, kprobe_array-decision}
use reference_monitor.Probes.Mediation.{Says, protects}
use reference_monitor.Probes.Table.{Probe, ProbeApi, kprobe_array}
use reference_monitor.Run.{Returns}
use reference_monitor.Syscalls.{World}
use reference_monitor.Syscalls.Keeps.{Obeys}
use reference_monitor.Syscalls.Spec.{View}
use reference_monitor.Syscalls.Spec.Served.{Served, Served-Shows}
use reference_monitor.Syscalls.Spec.Shows.{Shows}

-- `b` says whether the view protects against a change of `p`: in a state that is neither RF_OFF nor
-- RF_REC_OFF, with a protected path that covers it.
abbrev pub Protected : View → FilePath → Bool → Type 0
Protected v p b =
    (b ≡ true) ↔ ((is_active v.state ≡ true) × (s : FilePath) × (v.protects s ≡ true) × Covers s p)

same_answer : (a b : Bool) → (a ≡ true → b ≡ true) → (b ≡ true → a ≡ true) → a ≡ b
same_answer true b to from = sym (to refl)
same_answer false true to from = from refl
same_answer false false to from = refl

both_parts : (a b : Bool) → (a && b) ≡ true → (a ≡ true) × (b ≡ true)
both_parts true b e = (refl, e)
both_parts false b e = absurd (false≢true e)

module _ (sha : Sha256) (secret : List ℕ) (v : View) (w : World) (sh : Shows sha secret v w) where
  protects-Protected :
      (p : FilePath) (b : Bool) → Protected v p b → protects w.rf sh.inv.cells p ≡ b
  unfolding protects
  protects-Protected p b iff =
      same_answer (is_active w.rf.state && covered p (paths sh.inv.cells)) b
        (λ both.
          let (act, hit) =
            both_parts (is_active w.rf.state) (covered p (paths sh.inv.cells)) both in
          let (s, i, c) = (covered_iff p (paths sh.inv.cells)).0 hit in
          iff.1 (subst (λ z. is_active z ≡ true) sh.state act, s, sym (sh.protects s) ∙ i, c))
        (λ e.
          let (act, s, i, c) = iff.0 e in
          let active : is_active w.rf.state ≡ true =
            subst (λ z. is_active z ≡ true) (sym sh.state) act in
          let hit = covered_by p s (paths sh.inv.cells) (sh.protects s ∙ i) c in
          rw (active, hit) refl)

module _ (fuel : ℕ) (sha : Sha256) (api : ProbeApi) (secret : List ℕ) (obeys : Obeys api) where
  -- Start from a world that shows a view, with probes that obey, and let any callers make any
  -- number of calls, of all six kinds, that the kernel answers and that come back, each with room in
  -- the count and fuel for the list, and with memory for each new node that happens to hold NULL in
  -- `next`, which neither `kmalloc` nor the code sees to. Then, with fuel for the list, the handler of each registered probe comes
  -- back with the monitor as it was, and returns 0 exactly if the rule of its function says so of
  -- its two paths, of at most 190 bytes: by whether, of what the specification makes of the calls,
  -- the state is neither RF_OFF nor RF_REC_OFF and some protected path covers them.
  pub Served-handlers :
      (v v' : View) (w w' : World) (i : ℕ) (pr : Probe) (q : Request) (p p' : FilePath)
      (b b' : Bool)
      → Shows sha secret v w
      → Served fuel sha api secret v w v' w'
      → w'.rf.size < fuel
      → get_elem? kprobe_array i ≡ some pr
      → Shown q p p'
      → Protected v' p b
      → Protected v' p' b'
      → Returns (Says w'.rf (decision pr.symbol (wants_write q.flags) b b')) (pr.entry fuel q w'.rf)
  Served-handlers v v' w w' i pr q p p' b b' sh0 served lt at shown first second =
      let sh = Served-Shows fuel sha api secret obeys v v' w w' sh0 served in
      let xs : Cells = sh.inv.cells in
      subst₂
        (λ d d'.
          Returns (Says w'.rf (decision pr.symbol (wants_write q.flags) d d'))
            (pr.entry fuel q w'.rf))
        (protects-Protected sha secret v' w' sh p b first)
        (protects-Protected sha secret v' w' sh p' b' second)
        (kprobe_array-decision i pr fuel w'.rf xs q p p' at sh.inv.monitor
          (omega (arith, sh.inv.monitor.counted)) shown)

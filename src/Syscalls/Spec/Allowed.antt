-- ===== src/Syscalls/Spec/Allowed.antt =====
-- The system calls of root with the password do what the specification says.
use reference_monitor.Base.{
  Bool, Bool-cases, List, arith, false, if◌then◌else◌, inl, inr, not, refl, some, true, ℕ, ◌&&◌,
  ◌+◌, ◌<◌, ◌^◌, ◌||◌, ◌∙◌, ◌≡◌, ◌≤◌,
}
use reference_monitor.Base.Int.{einval, eperm, gt_pos, lt_pos, pos, ℤ}
use reference_monitor.Blacklist.{AddEnv, Block, RemoveEnv}
use reference_monitor.Blacklist.Add.{Granted}
use reference_monitor.Blacklist.Keeps.{Added-Holds, Removed-Holds, with_path}
use reference_monitor.Blacklist.Unique.{
  contains-erase_cell, contains-with_path, erase_cell-Unique, with_path-Unique,
}
use reference_monitor.CString.{c_str, str_eq}
use reference_monitor.Checks.{is_rf_rec, rf_state_check}
use reference_monitor.Monitor.{FilePath, null}
use reference_monitor.Monitor.Edit.{erase_cell}
use reference_monitor.Password.{PasswordEnv, Sha256}
use reference_monitor.Password.Check.{Answered}
use reference_monitor.Probes.Table.{ProbeApi}
use reference_monitor.Run.{Returns, Returns-mono, Run}
use reference_monitor.Syscalls.{
  World, sys_add_to_blacklist, sys_remove_from_blacklist, sys_switch_rf_state,
}
use reference_monitor.Syscalls.Grant.{
  granted-Removed, probes_for, sys_add_to_blacklist-Added, sys_switch_rf_state-granted,
}
use reference_monitor.Syscalls.Keeps.{Obeys, probes_for-armed}
use reference_monitor.Syscalls.Spec.{
  Demand, Fits, View, is_state, may_edit, protect, release, spec, to_state,
}
use reference_monitor.Syscalls.Spec.Shows.{Shows, Shows-next}

may_edit-rec :
    (v : View) (w : World) → w.rf.state ≡ v.state → may_edit v ≡ true → is_rf_rec w.rf ≡ pos 0
unfolding is_rf_rec
may_edit-rec v w st ok = let low : lt_pos v.state 2 ≡ false = ground arith in rw (st, low) refl

may_edit-eperm :
    (v : View) (w : World) → w.rf.state ≡ v.state → may_edit v ≡ false → is_rf_rec w.rf ≡ eperm
unfolding is_rf_rec
may_edit-eperm v w st off = let low : lt_pos v.state 2 ≡ true = ground arith in rw (st, low) refl

is_state-check :
    (n : ℤ) (b : Bool) → is_state n ≡ b → rf_state_check n ≡ (if b then pos 0 else einval)
unfolding rf_state_check
is_state-check n true e = let out : (lt_pos n 0 || gt_pos n 3) ≡ false = ground arith in rw out refl
is_state-check n false e = let out : (lt_pos n 0 || gt_pos n 3) ≡ true = ground arith in rw out refl

module _ (fuel : ℕ) (sha : Sha256) (api : ProbeApi) (secret : List ℕ) (v : View) (w : World)
    (sh : Shows sha secret v w) (obeys : Obeys api) (lt : w.rf.size + 1 < fuel)
    (room : w.rf.size + 1 < 2 ^ 32) (pw : PasswordEnv) (s : List ℕ) (a : Answered pw s)
    (same : sha.digest s ≡ sha.digest secret) where
  -- A run does what the specification says of the demand, when it is allowed.
  abbrev pub Does : Demand → Run World ℤ → Type 0
  Does d r = Returns (λ c w'. Shows sha secret (spec true d v).0 w' × Fits (spec true d v).1 c) r

  switched :
      (n : ℤ)
      → is_state n ≡ true
      → Shows sha secret
          (record v { state = n })
          (record {
            rf = record w.rf { state = n; locked = false };
            probes = some (probes_for api n sh.inv.array);
          })
  switched n ok = record {
    inv = record {
      cells = sh.inv.cells;
      monitor = record {
        list = record { head = sh.inv.monitor.list.head; chain = sh.inv.monitor.list.chain };
        unlocked = refl;
        counted = sh.inv.monitor.counted;
        fits = sh.inv.monitor.fits;
      };
      stored = sh.inv.stored;
      password = sh.inv.password;
      array = probes_for api n sh.inv.array;
      probes = refl;
      armed = probes_for-armed api obeys n sh.inv.array (is_state-check n true ok);
    };
    kept = sh.kept;
    unique = sh.unique;
    state = refl;
    protects = sh.protects;
  }

  pub switch_allowed :
      (n : ℤ) (text : Bool) → Does (to_state n text) (sys_switch_rf_state sha api n pw 0 text w)
  unfolding spec sys_switch_rf_state
  switch_allowed n text = elim (Bool-cases (is_state n)) [
    | inl ok ↦
        rw
          (
            ok,
            sys_switch_rf_state-granted fuel sha w pw s secret api n text sh.inv.array a sh.kept
                same (is_state-check n true ok) sh.inv.monitor.unlocked sh.inv.probes,
          )
          (switched n ok, refl)
    | inr bad ↦ rw (bad, is_state-check n false bad) (sh, refl)
  ]

  pub add_allowed :
      (e : AddEnv) (path : FilePath) (b : Block)
      → Granted e sh.inv.cells path b
      → b.stale ≡ null
      → Does (protect path) (sys_add_to_blacklist fuel sha pw 0 e w)
  unfolding spec sys_add_to_blacklist
  add_allowed e path b g st = elim (Bool-cases (may_edit v)) [
    | inl ok ↦ rw ok (
        Returns-mono _ _ (sys_add_to_blacklist fuel sha pw 0 e w)
          (sys_add_to_blacklist-Added fuel sha w pw s secret e sh.inv.cells path b a sh.kept same
            (may_edit-rec v w sh.state ok) sh.inv.monitor g st
            (omega (arith, sh.inv.monitor.counted)))
          (λ r w' (ad, pr). (
            Shows-next sha secret v w sh
                (record v { protects = λ q. str_eq path q || v.protects q }) w'
                (with_path path b.address sh.inv.cells)
                (Added-Holds w.rf w'.rf sh.inv.cells path b.address r sh.inv.monitor room ad)
                (with_path-Unique path b.address sh.inv.cells sh.unique) ad.4 ad.5 pr refl
                (λ q. contains-with_path q path b.address sh.inv.cells ∙ rw (sh.protects q) refl),
            ad.0 ∙ rw (sh.protects path) refl,
          )))
    | inr off ↦ rw (off, may_edit-eperm v w sh.state off) (sh, refl)
  ]

  pub remove_allowed :
      (e : RemoveEnv) (path : FilePath)
      → e.buffer ≡ true
      → e.copy.left ≤ 4096
      → c_str e.copy.bytes ≡ some path
      → Does (release path) (sys_remove_from_blacklist fuel sha pw 0 e w)
  unfolding spec sys_remove_from_blacklist
  remove_allowed e path buf small str = elim (Bool-cases (may_edit v)) [
    | inl ok ↦ rw ok (
        Returns-mono _ _ (sys_remove_from_blacklist fuel sha pw 0 e w)
          (granted-Removed fuel sha w pw s secret e sh.inv.cells path a sh.kept same
            (may_edit-rec v w sh.state ok) sh.inv.monitor buf small str
            (omega (arith, sh.inv.monitor.counted)))
          (λ r w' (code, (c, re), pr). (
            Shows-next sha secret v w sh
                (record v { protects = λ q. not (str_eq path q) && v.protects q }) w'
                (erase_cell path sh.inv.cells)
                (Removed-Holds w.rf w'.rf sh.inv.cells path c sh.inv.monitor re)
                (erase_cell-Unique path sh.inv.cells sh.unique) re.4 re.5 pr refl
                (λ q. contains-erase_cell q path sh.inv.cells sh.unique ∙ rw (sh.protects q) refl),
            code ∙ rw (sh.protects path) refl,
          )))
    | inr off ↦ rw (off, may_edit-eperm v w sh.state off) (sh, refl)
  ]

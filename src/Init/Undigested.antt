-- ===== src/Init/Undigested.antt =====
-- A module that is loaded without the digest of its password.
-- The ways in which the kernel does not give the digest, and the code notices.
use reference_monitor.Base.{
  Bool, Bool-cases, List, ap, arith, false, if◌then◌else◌, inl, inr, none, refl, some, subst, suc,
  sym, true, zero, ℕ, ◌==◌, ◌∙◌, ◌≡◌, ◌≢◌,
}
use reference_monitor.Access.{is_blacklisted}
use reference_monitor.Base.Int.{is_error, negsuc, pos, ℤ}
use reference_monitor.Checks.{is_rf_rec, rf_state_check}
use reference_monitor.Init.{Module, init_module, set_up}
use reference_monitor.Install.{hacked_entries}
use reference_monitor.Install.Restore.{initialize_lem, installed}
use reference_monitor.Monitor.{FilePath, Monitor, null, spin_lock, spin_unlock}
use reference_monitor.Password.{
  HashEnv, PasswordEnv, Sha256, encrypt_password, holds, password_check,
}
use reference_monitor.Password.Keeps.{no_password-IfDone}
use reference_monitor.Probes.Table.{ProbeApi, kprobe_array, kretprobe_init}
use reference_monitor.Run.{Cmd, IfDone, IfDone-mono, Run, and_then, done, fault}
use reference_monitor.SyscallTable.{get_entries}
use reference_monitor.Syscalls.{
  World, on_rf, sys_add_to_blacklist, sys_get_blacklist_size, sys_get_rf_state,
  sys_remove_from_blacklist, sys_switch_rf_state, unless_error, with_rf,
}
use reference_monitor.Syscalls.Call.{
  Call, add, call, get, print, print-IfDone, remove, size, switch, told,
}
use reference_monitor.Syscalls.Histories.{Steps, step, stop}
use reference_monitor.Syscalls.Print.{sys_print_blacklist}

pub data Undigested (h : HashEnv) : Type 0 where
  no_transform : h.transform ≡ false → Undigested h
  no_desc : (h.transform ≡ true) × (h.desc ≡ false) × (h.stale_digest ≡ 0) → Undigested h
  no_buffer : (h.transform ≡ true) × (h.desc ≡ true) × (h.digest_buffer ≡ false) → Undigested h
  bad_status :
      (h.transform ≡ true) × (h.desc ≡ true) × (h.digest_buffer ≡ true)
      → h.status ≢ 0
      → Undigested h
  no_result :
      (h.transform ≡ true) × (h.desc ≡ true) × (h.digest_buffer ≡ true)
      → (h.status ≡ 0) × (h.result ≡ false)
      → Undigested h

undigested_lem :
    (sha : Sha256) (h : HashEnv) (s : List ℕ) (m : Monitor)
    → Undigested h
    → encrypt_password sha h (holds s) m ≡ done none m
unfolding encrypt_password
undigested_lem sha h s m (no_transform a) = rw a refl
undigested_lem sha h s m (no_desc (a, b, c)) = rw (a, b, c) refl
undigested_lem sha h s m (no_buffer (a, b, c)) = rw (a, b, c) refl
undigested_lem sha h s m (bad_status (a, b, c) ne) =
    let bad : (h.status == 0) ≡ false = ground arith in rw (a, b, c, bad) refl
undigested_lem sha h s m (no_result (a, b, c) (d, e)) = rw (a, b, c, d, e) refl

-- The module as such a loading leaves it.
abbrev pub unkeyed : ProbeApi → List ℕ → Bool → Module → List ℕ × ℕ → Module
unkeyed api calls array_buffer m r = record {
  kernel = installed calls m.kernel r;
  world = record {
    rf = record m.world.rf {
      locked = false;
      state = pos 1;
      head = null;
      size = 0;
      password = none;
    };
    probes = if array_buffer then some (api.register_kretprobes kprobe_array).0 else none;
  };
}

set_up_keyless :
    (sha : Sha256) (api : ProbeApi) (s : List ℕ) (h : HashEnv) (array_buffer : Bool) (w : World)
    → Undigested h
    → w.rf.locked ≡ false
    → set_up sha api (holds s) h array_buffer w
      ≡ done (pos 0) (record {
        rf = record w.rf { locked = false; state = pos 1; head = null; size = 0; password = none };
        probes = if array_buffer then some (api.register_kretprobes kprobe_array).0 else none;
      })
unfolding set_up spin_lock spin_unlock kretprobe_init
set_up_keyless sha api s h array_buffer w u un =
    let hashed =
      undigested_lem sha h s (record w.rf { locked = false; state = pos 1; head = null; size = 0 })
        u in
    elim (Bool-cases array_buffer) [
      | inl b ↦ rw (un, hashed, b) refl
      | inr b ↦ rw (un, hashed, b) refl
    ]

abbrev Same : {A : Type 0} → World → A → World → Type 0
Same w r w' = w' ≡ w

by_code :
    (w : World) (r : ℤ) (k : Cmd World ℤ)
    → IfDone (Same w) (k w)
    → IfDone (Same w) (unless_error r k w)
by_code w (pos zero) k h = h
by_code w (pos (suc n)) k h = refl
by_code w (negsuc n) k h = refl

module _ (sha : Sha256) (w : World) (unset : w.rf.password ≡ none) where
  behind_password :
      (pw : PasswordEnv) (k : Cmd World ℤ)
      → IfDone (Same w) (and_then (on_rf (password_check sha pw) w) (λ c. unless_error c k))
  behind_password pw k = go (password_check sha pw w.rf) (no_password-IfDone sha pw w.rf unset)
    where
      go :
          (r : Run Monitor ℤ)
          → IfDone (λ r m'. (is_error r ≡ true) × (m' ≡ w.rf)) r
          → IfDone (Same w) (and_then (with_rf w r) (λ c. unless_error c k))
      go (done (pos n) m') (e, same) = absurd (cc)
      go (done (negsuc n) m') (e, same) = rw same refl
      go (fault f) h = tt

  keyless-Same :
      (fuel : ℕ) (api : ProbeApi) (euid : ℕ) (c : Call)
      → IfDone (Same w) (call fuel sha api euid c w)
  unfolding call sys_switch_rf_state sys_get_rf_state sys_add_to_blacklist sys_remove_from_blacklist
      sys_get_blacklist_size
  keyless-Same fuel api euid (switch state pw text) =
      by_code w (rf_state_check state) _ (behind_password pw _)
  keyless-Same fuel api euid (get true) = refl
  keyless-Same fuel api euid (get false) = refl
  keyless-Same fuel api euid (add pw e) = by_code w (is_rf_rec w.rf) _ (behind_password pw _)
  keyless-Same fuel api euid (remove pw e) = by_code w (is_rf_rec w.rf) _ (behind_password pw _)
  keyless-Same fuel api euid size = refl
  keyless-Same fuel api euid (print e asked) =
      IfDone-mono _ _ (told w (sys_print_blacklist fuel e asked w.rf)) (print-IfDone fuel e asked w)
        (λ r w' (answer, same). same)

abbrev Anything : ℕ → Call → Type 0
Anything euid c = Unit {0}

module _ (fuel : ℕ) (sha : Sha256) (api : ProbeApi) where
  Steps-keyless : (w w' : World) → w.rf.password ≡ none → Steps fuel sha api Anything w w' → w' ≡ w
  Steps-keyless w w' unset stop = refl
  Steps-keyless w w' unset (step {w' = w1} euid c r p run rest) =
      let e = subst (IfDone (Same w)) run (keyless-Same sha w unset fuel api euid c) in
      Steps-keyless w1 w' (ap (λ z. z.rf.password) e ∙ unset) rest ∙ e

  -- Six free entries are found and the lock is free, but the kernel does not give the digest of the
  -- module's password, and the code notices. Then loading returns 0 all the same, whether there is
  -- memory for the probes or not. The monitor is off, and stays as it was loaded whatever
  -- calls come back, of any callers, with any strings and any answers of the kernel;
  -- `is_blacklisted` says 0 of every path.
  pub init_module-Undigested :
      (calls s : List ℕ) (h : HashEnv) (array_buffer : Bool) (m : Module) (r : List ℕ × ℕ)
      (w' : World) (path : FilePath)
      → get_entries m.kernel.table hacked_entries ≡ some r
      → Undigested h
      → m.world.rf.locked ≡ false
      → Steps fuel sha api Anything (unkeyed api calls array_buffer m r).world w'
      → (init_module sha api calls (holds s) h array_buffer m
          ≡ done (pos 0) (unkeyed api calls array_buffer m r))
        × (w' ≡ (unkeyed api calls array_buffer m r).world)
        × (is_blacklisted fuel (some path) w'.rf ≡ done 0 w'.rf)
  unfolding init_module is_blacklisted
  init_module-Undigested calls s h array_buffer m r w' path e u un past =
      let same = Steps-keyless (unkeyed api calls array_buffer m r).world w' refl past in
      (
        rw (initialize_lem calls m.kernel r e, set_up_keyless sha api s h array_buffer m.world u un)
            refl,
        same,
        subst (λ z. is_blacklisted fuel (some path) z.rf ≡ done 0 z.rf) (sym same) refl,
      )

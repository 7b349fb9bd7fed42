-- ===== src/Syscalls/Grant.antt =====
-- What the system calls do for a caller with the password, and without it, when the kernel answers.
use reference_monitor.Base.{
  Bool, Bool-cases, List, Option, arith, codes, false, false≢true, if◌then◌else◌, inl, inr, length,
  none, refl, some, subst, sym, true, ℕ, ◌<◌, ◌==◌, ◌||◌, ◌≡◌, ◌≢◌, ◌≤◌, ◌⊎◌,
}
use reference_monitor.Base.Int.{eacces, einval, enomem, eq_pos, is_error, negsuc, pos, ℤ}
use reference_monitor.Blacklist.{AddEnv, Block, RemoveEnv, add_to_blacklist, remove_from_blacklist}
use reference_monitor.Blacklist.Add.{Added, Granted, add_to_blacklist-Added}
use reference_monitor.Blacklist.Remove.{Removed, remove_from_blacklist-Removed}
use reference_monitor.CString.{c_str}
use reference_monitor.Checks.{
  euid_check, is_rf_rec, is_rf_rec-codes, rf_state_check, rf_state_check-codes,
}
use reference_monitor.Monitor.{FilePath, Monitor, null, spin_lock, spin_unlock}
use reference_monitor.Monitor.Chain.{Cells, IsList, paths}
use reference_monitor.Monitor.Edit.{contains, erase_cell}
use reference_monitor.Monitor.Invariant.{Holds}
use reference_monitor.Password.{PasswordEnv, Sha256, hex, password_check}
use reference_monitor.Password.Check.{Answered, password_check_lem}
use reference_monitor.Probes.Table.{
  Probe, ProbeApi, disable_kprobes, disable_loop, enable_kprobes, enable_loop,
}
use reference_monitor.Run.{Cmd, Returns, Returns-bind, Returns-mono, Run, and_then, done, fault}
use reference_monitor.Syscalls.{
  World, not_found_as_one, on_rf, remove_path, switch_state, sys_add_to_blacklist,
  sys_remove_from_blacklist, sys_switch_rf_state, unless_error, with_rf,
}
use reference_monitor.Syscalls.Call.{Call, add, call, get, print, remove, size, switch}

-- The call comes back with an error code and the world as it was.
abbrev pub Declined : World → ℤ → World → Type 0
Declined w r w' = (is_error r ≡ true) × (w' ≡ w)

abbrev pub password_of : Call → Option PasswordEnv
password_of (switch state pw text) = some pw
password_of (add pw e) = some pw
password_of (remove pw e) = some pw
password_of other = none

by_code :
    (w : World) (r : ℤ) (k : Cmd World ℤ)
    → (r ≡ pos 0) ⊎ (is_error r ≡ true)
    → Returns (Declined w) (k w)
    → Returns (Declined w) (unless_error r k w)
by_code w r k (inl e) g = subst (λ z. Returns (Declined w) (unless_error z k w)) (sym e) g
by_code w (negsuc n) k (inr e) g = (refl, refl)
by_code w (pos n) k (inr e) g = absurd (false≢true e)

module _ (sha : Sha256) (euid : ℕ) (w : World) (pw : PasswordEnv) (s secret : List ℕ)
    (a : Answered pw s) (kept : w.rf.password ≡ some (hex (sha.digest secret))) where
  -- Behind the right password, a continuation runs as it stands.
  pub right_password :
      (k : Cmd World ℤ)
      → sha.digest s ≡ sha.digest secret
      → and_then (on_rf (password_check sha pw) w) (λ c. unless_error c k) ≡ k w
  right_password k e =
      let (r, run, iff, codes) = password_check_lem sha pw w.rf s secret a kept in rw (run, iff.1 e)

  pub wrong_password :
      (k : Cmd World ℤ)
      → sha.digest s ≢ sha.digest secret
      → and_then (on_rf (password_check sha pw) w) (λ c. unless_error c k) ≡ done eacces w
  wrong_password k ne =
      let (r, run, iff, codes) = password_check_lem sha pw w.rf s secret a kept in
      rw run (elim codes [ inl z ↦ absurd (ne (iff.0 z)) | inr z ↦ rw z ])

  not_authorised :
      (k : Cmd World ℤ)
      → (sha.digest s ≢ sha.digest secret) ⊎ (euid ≢ 0)
      → Returns (Declined w) (
          and_then
            (on_rf (password_check sha pw) w)
            (λ c. unless_error c (unless_error (euid_check euid) k)))
  unfolding euid_check
  not_authorised k (inl ne) = rw (wrong_password (unless_error (euid_check euid) k) ne) (refl, refl)
  not_authorised k (inr ne) =
      let no_root : (euid == 0) ≡ false = ground arith in
      let (r, run, iff, codes) = password_check_lem sha pw w.rf s secret a kept in
      rw run (
        by_code w r _ (elim codes [ inl z ↦ inl z | inr z ↦ inr (rw z) ]) (rw no_root (refl, refl)))

module _ (fuel : ℕ) (sha : Sha256) (api : ProbeApi) (euid : ℕ) (w : World) (pw : PasswordEnv)
    (s secret : List ℕ) where
  -- When the kernel answers the password check and the monitor keeps the digest of `secret`, a call
  -- that is meant to change the monitor, with a string of another digest or from a caller that is
  -- not root, comes back with an error code and changes nothing.
  pub call-Declined :
      (c : Call)
      → password_of c ≡ some pw
      → Answered pw s
      → w.rf.password ≡ some (hex (sha.digest secret))
      → (sha.digest s ≢ sha.digest secret) ⊎ (euid ≢ 0)
      → Returns (Declined w) (call fuel sha api euid c w)
  unfolding call sys_switch_rf_state sys_add_to_blacklist sys_remove_from_blacklist
  call-Declined (switch state pw' text) e a kept no_auth =
      by_code w (rf_state_check state) _ (rf_state_check-codes state)
        (not_authorised sha euid w pw' s secret (subst (λ z. Answered z s) (cc) a) kept _ no_auth)
  call-Declined (get text) e a kept no_auth = cc
  call-Declined (add pw' e') e a kept no_auth =
      by_code w (is_rf_rec w.rf) _ (is_rf_rec-codes w.rf)
        (not_authorised sha euid w pw' s secret (subst (λ z. Answered z s) (cc) a) kept _ no_auth)
  call-Declined (remove pw' e') e a kept no_auth =
      by_code w (is_rf_rec w.rf) _ (is_rf_rec-codes w.rf)
        (not_authorised sha euid w pw' s secret (subst (λ z. Answered z s) (cc) a) kept _ no_auth)
  call-Declined size e a kept no_auth = cc
  call-Declined (print e' asked) e a kept no_auth = cc

-- The probes after a switch to `state`: armed in RF_ON and RF_REC_ON, disarmed in the others.
abbrev pub probes_for : ProbeApi → ℤ → List Probe → List Probe
probes_for api state ps =
    if eq_pos state 0 || eq_pos state 2 then enable_loop api ps else disable_loop api ps

pub switch_state_lem :
    (api : ProbeApi) (state : ℤ) (text : Bool) (w : World) (ps : List Probe)
    → w.rf.locked ≡ false
    → w.probes ≡ some ps
    → switch_state api state text w
      ≡ done (if text then state else enomem) (record {
        rf = record w.rf { locked = false; state = state };
        probes = some (probes_for api state ps);
      })
unfolding switch_state spin_lock spin_unlock enable_kprobes disable_kprobes
switch_state_lem api state text w ps un pr = elim (Bool-cases (eq_pos state 0 || eq_pos state 2)) [
  | inl e ↦ rw (un, pr, e) (elim (Bool-cases text) [ inl t ↦ rw t | inr t ↦ rw t ])
  | inr e ↦ rw (un, pr, e) (elim (Bool-cases text) [ inl t ↦ rw t | inr t ↦ rw t ])
]

with_rf-Returns :
    (w : World) (P : ℤ → Monitor → Type 0) (r : Run Monitor ℤ)
    → Returns P r
    → Returns (λ a w'. P a w'.rf × (w'.probes ≡ w.probes)) (with_rf w r)
with_rf-Returns w P (done a m) h = (h, refl)
with_rf-Returns w P (fault f) h = elim h [ ]

removed_code :
    (known : Bool) (r : ℤ)
    → r ≡ (if known then pos 0 else einval)
    → not_found_as_one r ≡ (if known then pos 0 else pos 1)
unfolding not_found_as_one
removed_code true r e = rw e
removed_code false r e = rw e

module _ (fuel : ℕ) (sha : Sha256) (w : World) (pw : PasswordEnv) (s secret : List ℕ) where
  -- For root with the password, from a free lock and with the probes set up, a switch to one of the
  -- four states sets the state, arms or disarms the probes, and changes nothing else. It does so
  -- also when there is no memory for the audit text, where the caller gets -ENOMEM in place of the
  -- new state.
  pub sys_switch_rf_state-granted :
      (api : ProbeApi) (state : ℤ) (text : Bool) (ps : List Probe)
      → Answered pw s
      → w.rf.password ≡ some (hex (sha.digest secret))
      → sha.digest s ≡ sha.digest secret
      → rf_state_check state ≡ pos 0
      → w.rf.locked ≡ false
      → w.probes ≡ some ps
      → sys_switch_rf_state sha api state pw 0 text w
        ≡ done (if text then state else enomem) (record {
          rf = record w.rf { locked = false; state = state };
          probes = some (probes_for api state ps);
        })
  unfolding sys_switch_rf_state euid_check
  sys_switch_rf_state-granted api state text ps a kept same ok un pr =
      rw (ok, right_password sha 0 w pw s secret a kept (switch_state api state text) same)
        (switch_state_lem api state text w ps un pr)

  -- For root with the password, in a reconfiguration state and from a well-formed monitor, the call
  -- to add a path does what `add_to_blacklist` does with a fresh zeroed node, and says what it says:
  -- -EEXIST for a known path, else 0 with the path at the end. The probes stay as they are.
  pub sys_add_to_blacklist-Added :
      (e : AddEnv) (xs : Cells) (path : FilePath) (b : Block)
      → Answered pw s
      → w.rf.password ≡ some (hex (sha.digest secret))
      → sha.digest s ≡ sha.digest secret
      → is_rf_rec w.rf ≡ pos 0
      → Holds w.rf xs
      → Granted e xs path b
      → b.stale ≡ null
      → length xs ≤ fuel
      → Returns
          (λ r w'. Added w.rf xs path b.address r w'.rf × (w'.probes ≡ w.probes))
          (sys_add_to_blacklist fuel sha pw 0 e w)
  unfolding sys_add_to_blacklist euid_check
  sys_add_to_blacklist-Added e xs path b a kept same rec h g st lt =
      rw (rec, right_password sha 0 w pw s secret a kept (on_rf (add_to_blacklist fuel e)) same)
        (with_rf-Returns w (Added w.rf xs path b.address) (add_to_blacklist fuel e w.rf)
          (add_to_blacklist-Added fuel e w.rf xs path b h g st lt))

  pub granted-Removed :
      (e : RemoveEnv) (xs : Cells) (path : FilePath)
      → Answered pw s
      → w.rf.password ≡ some (hex (sha.digest secret))
      → sha.digest s ≡ sha.digest secret
      → is_rf_rec w.rf ≡ pos 0
      → Holds w.rf xs
      → e.buffer ≡ true
      → e.copy.left ≤ 4096
      → c_str e.copy.bytes ≡ some path
      → length xs < fuel
      → Returns
          (λ r w'.
            (r ≡ (if contains path (paths xs) then pos 0 else pos 1))
            × ((code : ℤ) × Removed w.rf xs path code w'.rf)
            × (w'.probes ≡ w.probes))
          (sys_remove_from_blacklist fuel sha pw 0 e w)
  unfolding sys_remove_from_blacklist euid_check
  granted-Removed e xs path a kept same rec h buf small str lt =
      rw (rec, right_password sha 0 w pw s secret a kept (remove_path fuel e) same)
        (Returns-bind _ _ (on_rf (remove_from_blacklist fuel e) w) _
          (with_rf-Returns w (Removed w.rf xs path) (remove_from_blacklist fuel e w.rf)
            (remove_from_blacklist-Removed fuel e w.rf xs path h buf small str lt))
          (λ r w' (re, same_probes).
            (removed_code (contains path (paths xs)) r re.0, (r, re), same_probes)))

  -- For root with the password, in a reconfiguration state and from a well-formed monitor with
  -- fuel for its list, when the kernel answers the password check and copies the path, the call to
  -- remove a path returns 0 if the path was in the list, which is then without its first
  -- occurrence, and 1 if it was not, which leaves the list as it was. The state and the probes
  -- stay as they are.
  pub sys_remove_from_blacklist-Removed :
      (e : RemoveEnv) (xs : Cells) (path : FilePath)
      → Answered pw s
      → w.rf.password ≡ some (hex (sha.digest secret))
      → sha.digest s ≡ sha.digest secret
      → is_rf_rec w.rf ≡ pos 0
      → Holds w.rf xs
      → e.buffer ≡ true
      → e.copy.left ≤ 4096
      → c_str e.copy.bytes ≡ some path
      → length xs < fuel
      → Returns
          (λ r w'.
            (r ≡ (if contains path (paths xs) then pos 0 else pos 1))
            × IsList w'.rf (erase_cell path xs)
            × (w'.rf.state ≡ w.rf.state)
            × (w'.probes ≡ w.probes))
          (sys_remove_from_blacklist fuel sha pw 0 e w)
  sys_remove_from_blacklist-Removed e xs path a kept same rec h buf small str lt =
      Returns-mono _ _ (sys_remove_from_blacklist fuel sha pw 0 e w)
        (granted-Removed e xs path a kept same rec h buf small str lt)
        (λ r w' (code, (c, re), same_probes). (code, re.1, re.4, same_probes))

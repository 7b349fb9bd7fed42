-- ===== src/Syscalls/Errors.antt =====
-- The system calls where they come back with an error: what of the list, the count, the state, the
-- password, the probes and the lock is as it was.
use reference_monitor.Base.{
  Bool, Bool-cases, ◌∙◌, Option-cases, ap, arith, false, inl, inr, length, refl, subst, suc, true,
  zero, ℕ, ◌<◌, ◌||◌, ◌≡◌, ◌⊎◌,
}
use reference_monitor.Base.Int.{einval, enomem, eq_pos, is_error, negsuc, pos, ℤ}
use reference_monitor.Blacklist.{RemoveEnv, add_to_blacklist, remove_from_blacklist}
use reference_monitor.Blacklist.Add.Errors.{AddedOrKept, add_to_blacklist-IfDone}
use reference_monitor.Blacklist.Remove.Errors.{AnsweredOrKept, remove_from_blacklist-IfDone}
use reference_monitor.Checks.{euid_check, is_rf_rec, rf_state_check}
use reference_monitor.Monitor.{Monitor, spin_lock, spin_unlock}
use reference_monitor.Monitor.Chain.{Cells, IsList}
use reference_monitor.Monitor.Invariant.{Holds}
use reference_monitor.Password.{PasswordEnv, Sha256, password_check}
use reference_monitor.Password.Keeps.{Checks, password_check-Checks}
use reference_monitor.Probes.Table.{ProbeApi, disable_kprobes, enable_kprobes}
use reference_monitor.Run.{Cmd, IfDone, IfDone-bind, IfDone-mono, Run, and_then, done, fault}
use reference_monitor.Syscalls.{
  World, not_found_as_one, on_rf, remove_path, set_state, switch_state, sys_add_to_blacklist,
  sys_get_blacklist_size, sys_get_rf_state, sys_remove_from_blacklist, sys_switch_rf_state,
  unless_error, with_rf,
}
use reference_monitor.Syscalls.Call.{
  Call, add, call, get, print, print-IfDone, remove, size, switch, told,
}
use reference_monitor.Syscalls.Grant.{switch_state_lem}
use reference_monitor.Syscalls.Print.{sys_print_blacklist}
use reference_monitor.Syscalls.Stops.{Apart}

pub record Unchanged (xs : Cells) (w w' : World) : Type 0 where
  pub list : IsList w'.rf xs
  pub size : w'.rf.size ≡ w.rf.size
  pub unlocked : w'.rf.locked ≡ false
  pub state : w'.rf.state ≡ w.rf.state
  pub password : w'.rf.password ≡ w.rf.password
  pub probes : w'.probes ≡ w.probes

-- A switch asks for the memory of its audit text when the state has changed already: where there is
-- none, it answers -ENOMEM with the new state.
abbrev pub Late : Call → World → ℤ → World → Type 0
Late c w r w' =
    (state : ℤ) × (pw : PasswordEnv) × (c ≡ switch state pw false)
    × (r ≡ enomem)
    × (w'.rf ≡ record w.rf { locked = false; state = state })

state-is_error : (state : ℤ) → rf_state_check state ≡ pos 0 → is_error state ≡ false
unfolding rf_state_check
state-is_error (pos n) e = refl
state-is_error (negsuc n) e = absurd (ground arith)

module _ (w : World) (xs : Cells) (h : Holds w.rf xs) (c : Call) where
  abbrev Fine : ℤ → World → Type 0
  Fine r w' = (is_error r ≡ false) ⊎ Unchanged xs w w' ⊎ Late c w r w'

  as_it_was : Unchanged xs w w
  as_it_was = record {
    list = h.list;
    size = refl;
    unlocked = h.unlocked;
    state = refl;
    password = refl;
    probes = refl;
  }

  no_change : {r : ℤ} → Fine r w
  no_change = inr (inl as_it_was)

  by_code :
      (r : ℤ) (k : Cmd World ℤ) → (r ≡ pos 0 → IfDone Fine (k w)) → IfDone Fine (unless_error r k w)
  by_code (pos zero) k next = next refl
  by_code (pos (suc n)) k next = inl refl
  by_code (negsuc n) k next = no_change

  by_password :
      (sha : Sha256) (pw : PasswordEnv) (k : Cmd World ℤ)
      → IfDone Fine (k w)
      → IfDone Fine (and_then (on_rf (password_check sha pw) w) (λ c. unless_error c k))
  by_password sha pw k next = go (password_check sha pw w.rf) (password_check-Checks sha pw w.rf)
    where
      go :
          (r : Run Monitor ℤ)
          → Checks w.rf r
          → IfDone Fine (and_then (with_rf w r) (λ c. unless_error c k))
      go (done c m) (code, same) = rw same (by_code c k λ ok. next)
      go (fault f) checks = tt

  switched-Fine :
      (api : ProbeApi) (state : ℤ) (pw : PasswordEnv) (text : Bool)
      → c ≡ switch state pw text
      → rf_state_check state ≡ pos 0
      → IfDone Fine (switch_state api state text w)
  unfolding switch_state set_state spin_lock spin_unlock enable_kprobes disable_kprobes
  switched-Fine api state pw text is ok = elim (Option-cases w.probes) [
    | inl none_yet ↦ elim (Bool-cases (eq_pos state 0 || eq_pos state 2)) [
      | inl on ↦ rw (h.unlocked, on, none_yet) tt
      | inr off ↦ rw (h.unlocked, off, none_yet) tt
    ]
    | inr (ps, ready) ↦
        rw (switch_state_lem api state text w ps h.unlocked ready) (elim (Bool-cases text) [
          | inl t ↦ rw t (inl (state-is_error state ok))
          | inr t ↦ rw t (inr (inr (state, pw, is ∙ ap (switch state pw) t, refl, refl)))
        ])
  ]

  add-Fine : (r : Run Monitor ℤ) → IfDone (AddedOrKept w.rf xs) r → IfDone Fine (with_rf w r)
  add-Fine (done r m) (inl ok) = inl ok
  add-Fine (done r m) (inr (l, s, u, st, p)) =
      inr
        (inl (record { list = l; size = s; unlocked = u; state = st; password = p; probes = refl }))
  add-Fine (fault f) a = tt

  remove-Fine : (fuel : ℕ) (e : RemoveEnv) → length xs < fuel → IfDone Fine (remove_path fuel e w)
  unfolding remove_path not_found_as_one
  remove-Fine fuel e lt =
      IfDone-bind _ Fine (on_rf (remove_from_blacklist fuel e) w) _
        (told (remove_from_blacklist fuel e w.rf)
          (remove_from_blacklist-IfDone fuel e w.rf xs h lt))
        go
    where
      told :
          (r : Run Monitor ℤ)
          → IfDone (AnsweredOrKept w.rf) r
          → IfDone (λ r w'. (r ≡ pos 0) ⊎ (r ≡ einval) ⊎ (w' ≡ w)) (with_rf w r)
      told (done r m) (inl e) = inl e
      told (done r m) (inr (inl e)) = inr (inl e)
      told (done r m) (inr (inr e)) = inr (inr (ap (λ z. record w { rf = z }) e))
      told (fault f) a = tt

      go :
          (r : ℤ) (w' : World)
          → (r ≡ pos 0) ⊎ (r ≡ einval) ⊎ (w' ≡ w)
          → Fine (not_found_as_one r) w'
      go r w' (inl e) = rw e (inl refl)
      go r w' (inr (inl e)) = rw e (inl refl)
      go r w' (inr (inr e)) = rw e no_change

module _ (fuel : ℕ) (sha : Sha256) (api : ProbeApi) (euid : ℕ) (w : World) (xs : Cells) where
  call-Fine :
      (c : Call) (h : Holds w.rf xs)
      → Apart xs c
      → length xs < fuel
      → IfDone (Fine w xs h c) (call fuel sha api euid c w)
  unfolding call sys_switch_rf_state sys_get_rf_state sys_add_to_blacklist sys_remove_from_blacklist
      sys_get_blacklist_size
  call-Fine (switch state pw text) h apart lt =
      let c = switch state pw text in
      by_code w xs h c (rf_state_check state) _ λ ok. by_password w xs h c sha pw _ (
        by_code w xs h c (euid_check euid) _
          λ root. switched-Fine w xs h c api state pw text refl ok)
  call-Fine (get true) h apart lt = no_change w xs h (get true)
  call-Fine (get false) h apart lt = no_change w xs h (get false)
  call-Fine (add pw e) h apart lt =
      let c = add pw e in
      by_code w xs h c (is_rf_rec w.rf) _ λ rec. by_password w xs h c sha pw _ (
        by_code w xs h c (euid_check euid) _ λ root.
          add-Fine w xs h c (add_to_blacklist fuel e w.rf)
            (add_to_blacklist-IfDone fuel e w.rf xs h apart (omega arith)))
  call-Fine (remove pw e) h apart lt =
      let c = remove pw e in
      by_code w xs h c (is_rf_rec w.rf) _ λ rec.
        by_password w xs h c sha pw _
          (by_code w xs h c (euid_check euid) _ λ root. remove-Fine w xs h c fuel e lt)
  call-Fine size h apart lt = no_change w xs h size
  call-Fine (print e asked) h apart lt =
      IfDone-mono _ _ (told w (sys_print_blacklist fuel e asked w.rf)) (print-IfDone fuel e asked w)
        (λ r w' (answer, same). rw same (no_change w xs h (print e asked)))

  -- A system call, of any caller and whatever the kernel answers, on a well-formed monitor with fuel
  -- for its list, where the memory for a new node is none of the list's: if it comes back with an
  -- error, the list, the count, the state, the password and the probes are as they were and the lock
  -- is free; or it is the switch without memory for its audit text, which answers -ENOMEM with the new
  -- state set and nothing else of the monitor changed (the probes are not spoken of there).
  pub call-Errors :
      (c : Call) (r : ℤ) (w' : World)
      → Holds w.rf xs
      → Apart xs c
      → length xs < fuel
      → call fuel sha api euid c w ≡ done r w'
      → is_error r ≡ true
      → Unchanged xs w w' ⊎ Late c w r w'
  call-Errors c r w' h apart lt run bad =
      elim (subst (IfDone (Fine w xs h c)) run (call-Fine c h apart lt)) [
        | inl fine ↦ absurd (cc)
        | inr same ↦ same
      ]

-- ===== src/Client/Answers.antt =====
-- What the client says of a switch of the state, with the kernel's side of the call behind it.
use reference_monitor.Base.{
  Bool, List, arith, false, if◌then◌else◌, refl, some, true, ℕ, ◌&&◌, ◌==◌, ◌∙◌, ◌≡◌, ◌≢◌,
}
use reference_monitor.Base.Int.{eacces, eperm, eq_pos, gt_pos, lt_pos, negsuc, pos, ℤ}
use reference_monitor.Checks.{euid_check, rf_off, rf_state_check}
use reference_monitor.Client.{change_state, get_rf_state, home_value, reply_of, wrong_euid_value}
use reference_monitor.Password.{PasswordEnv, Sha256, hex, password_check}
use reference_monitor.Password.Check.{Answered}
use reference_monitor.Probes.Table.{Probe, ProbeApi}
use reference_monitor.Run.{Cmd, Returns, and_then, done}
use reference_monitor.Syscalls.{
  World, on_rf, switch_state, sys_get_rf_state, sys_switch_rf_state, unless_error,
}
use reference_monitor.Syscalls.Grant.{right_password, sys_switch_rf_state-granted, wrong_password}

-- How the caller stands, and what the client's `change_state` is to return.
pub data Standing (sha : Sha256) (s secret : List ℕ) (euid : ℕ) (text : Bool) : ℤ → Type 0 where
  wrong_password_given :
      sha.digest s ≢ sha.digest secret → Standing sha s secret euid text home_value
  not_root :
      sha.digest s ≡ sha.digest secret → euid ≢ 0 → Standing sha s secret euid text wrong_euid_value
  root :
      sha.digest s ≡ sha.digest secret
      → euid ≡ 0
      → text ≡ true
      → Standing sha s secret euid text (pos 0)

abbrev switch_by : Sha256 → ProbeApi → PasswordEnv → (euid : ℕ) → Bool → ℤ → Cmd World ℤ
switch_by sha api pw euid text state = sys_switch_rf_state sha api state pw euid text

-- The guard asks for a state that is below 0 and above 3 at once.
unguarded : (x : ℤ) → (lt_pos x 0 && gt_pos x 3) ≡ false
unguarded (pos n) = ground arith
unguarded (negsuc n) = refl

module _ (fuel : ℕ) (sha : Sha256) (api : ProbeApi) (euid : ℕ) (w : World) (pw : PasswordEnv)
    (s secret : List ℕ) where
  switch_run :
      (n : ℕ) (text : Bool)
      → rf_state_check (pos n) ≡ pos 0
      → sys_switch_rf_state sha api (pos n) pw euid text w
        ≡ and_then
            (on_rf (password_check sha pw) w)
            (λ c. unless_error c (unless_error (euid_check euid) (switch_state api (pos n) text)))
  unfolding sys_switch_rf_state
  switch_run n text ok = rw ok refl

  -- The client asks for one of the four states, the kernel answers the password check, the lock is
  -- free and the probes are set up. For a string of another digest, `change_state` returns the value
  -- for the home screen; for the password from a caller that is not root, the value for a wrong user;
  -- in both cases the monitor keeps its state. For the password from root, with memory for the
  -- kernel's text, it returns 0, and the monitor is in the state that was asked for.
  pub change_state-Standing :
      (n : ℕ) (text : Bool) (ps : List Probe) (v : ℤ)
      → Answered pw s
      → w.rf.password ≡ some (hex (sha.digest secret))
      → rf_state_check (pos n) ≡ pos 0
      → w.rf.locked ≡ false
      → w.probes ≡ some ps
      → Standing sha s secret euid text v
      → Returns
          (λ r w'. (r ≡ v) × (w'.rf.state ≡ (if eq_pos v 0 then pos n else w.rf.state)))
          (change_state (switch_by sha api pw euid text) (pos n) w)
  unfolding change_state reply_of euid_check
  change_state-Standing n text ps v a kept ok un pr (wrong_password_given ne) =
      let run : sys_switch_rf_state sha api (pos n) pw euid text w ≡ done eacces w =
        switch_run n text ok ∙ wrong_password sha euid w pw s secret a kept _ ne in
      rw (unguarded (pos n), run) (refl, refl)
  change_state-Standing n text ps v a kept ok un pr (not_root e ne) =
      let no_root : (euid == 0) ≡ false = ground arith in
      let run : sys_switch_rf_state sha api (pos n) pw euid text w ≡ done eperm w =
        switch_run n text ok
        ∙ right_password sha euid w pw s secret a kept
            (unless_error (euid_check euid) (switch_state api (pos n) text)) e
        ∙ rw no_root refl in
      rw (unguarded (pos n), run) (refl, refl)
  change_state-Standing n text ps v a kept ok un pr (root e zero_so t) =
      rw
        (
          unguarded (pos n),
          zero_so,
          sys_switch_rf_state-granted fuel sha w pw s secret api (pos n) text ps a kept e ok un pr,
          t,
        )
        (refl, refl)

-- For a monitor whose state is not negative, the client's `get_rf_state` gives that state if the
-- kernel has memory for its text; if not, it gives RF_OFF, since that is the value of EXIT_FAILURE.
get_rf_state_lem :
    (text : Bool) (n : ℕ) (w : World)
    → w.rf.state ≡ pos n
    → get_rf_state (sys_get_rf_state text) w ≡ done (if text then pos n else rf_off) w
unfolding get_rf_state sys_get_rf_state reply_of
get_rf_state_lem true n w e = rw e refl
get_rf_state_lem false n w e = refl

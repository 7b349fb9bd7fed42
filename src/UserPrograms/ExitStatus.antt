-- ===== src/UserPrograms/ExitStatus.antt =====
-- What the program reports of a switch, with the kernel's side of the call behind it.
use reference_monitor.Base.{
  Bool, List, [], arith, false, if◌then◌else◌, refl, some, ℕ, ◌==◌, ◌∷◌, ◌≡◌,
}
use reference_monitor.Base.Int.{eq_pos, pos, ℤ}
use reference_monitor.Checks.{euid_check, rf_state_check}
use reference_monitor.Client.{reply_of}
use reference_monitor.Client.Answers.{Standing, not_root, root, wrong_password_given}
use reference_monitor.Client.Text.{strtol_int}
use reference_monitor.Password.{PasswordEnv, Sha256, hex}
use reference_monitor.Password.Check.{Answered}
use reference_monitor.Probes.Table.{Probe, ProbeApi}
use reference_monitor.Run.{Returns}
use reference_monitor.Syscalls.{World, switch_state, sys_switch_rf_state, unless_error}
use reference_monitor.Syscalls.Grant.{right_password, sys_switch_rf_state-granted, wrong_password}
use reference_monitor.UserPrograms.{switch_program, switch_to}

module _ (fuel : ℕ) (sha : Sha256) (api : ProbeApi) (euid : ℕ) (w : World)
    (password : List ℕ → PasswordEnv) (secret : List ℕ) where
  -- The kernel answers the password check, its lock is free and the probes are set up. With one of the
  -- four states and a string, the program exits with 0 and the state is set if the string has the
  -- password's digest, the program runs as root and the kernel has memory for its text; if the digest
  -- or the user is wrong, it exits with 1 and the state is as it was.
  pub switch_program-Standing :
      (program state s : List ℕ) (n : ℕ) (text : Bool) (ps : List Probe) (v : ℤ)
      → strtol_int state ≡ pos n
      → Answered (password s) s
      → w.rf.password ≡ some (hex (sha.digest secret))
      → rf_state_check (pos n) ≡ pos 0
      → w.rf.locked ≡ false
      → w.probes ≡ some ps
      → Standing sha s secret euid text v
      → Returns
          (λ r w'.
            (r ≡ (if eq_pos v 0 then 0 else 1))
            × (w'.rf.state ≡ (if eq_pos v 0 then pos n else w.rf.state)))
          (switch_program
            (λ m psw. sys_switch_rf_state sha api m (password psw) euid text)
            (program ∷ state ∷ s ∷ [])
            w)
  unfolding switch_program switch_to reply_of sys_switch_rf_state euid_check
  switch_program-Standing program state s n text ps v number a kept ok un pr
        (wrong_password_given ne) =
      rw
        (
          number,
          ok,
          wrong_password sha euid w (password s) s secret a kept
              (unless_error (euid_check euid) (switch_state api (pos n) text)) ne,
        )
        (refl, refl)
  switch_program-Standing program state s n text ps v number a kept ok un pr (not_root e ne) =
      let no_root : (euid == 0) ≡ false = ground arith in
      rw
        (
          number,
          ok,
          right_password sha euid w (password s) s secret a kept
              (unless_error (euid_check euid) (switch_state api (pos n) text)) e,
          no_root,
        )
        (refl, refl)
  switch_program-Standing program state s n text ps v number a kept ok un pr (root e zero_so t) =
      rw
        (
          number,
          zero_so,
          sys_switch_rf_state-granted fuel sha w (password s) s secret api (pos n) text ps a kept e
              ok un pr,
          t,
        )
        (refl, refl)

-- ===== src/Tests/Calls.antt =====
-- The system calls at concrete inputs.
use reference_monitor.Base.{
  List, [], ap, arith, false, inl, inr, refl, replicate, some, true, ℕ, ◌↔◌, ◌≡◌, ◌≢◌, ◌⊎◌,
}
use reference_monitor.Base.Int.{eacces, enomem, pos, ℤ}
use reference_monitor.Checks.{rf_state_check}
use reference_monitor.Password.{password_check}
use reference_monitor.Password.Check.{password_check_lem}
use reference_monitor.Probes.Table.{kprobe_array}
use reference_monitor.Run.{Returns, Run, done, fault}
use reference_monitor.Syscalls.{World, sys_get_rf_state, sys_switch_rf_state}
use reference_monitor.Syscalls.Authority.{Refused, call-Refused}
use reference_monitor.Syscalls.Call.{Call, add, call, get, switch}
use reference_monitor.Syscalls.Grant.{
  Declined, call-Declined, probes_for, sys_switch_rf_state-granted,
}
use reference_monitor.Syscalls.Histories.{Powerless, Steps, Steps-Powerless, step, stop}
use reference_monitor.Syscalls.Keeps.{Inv, call-Inv}
use reference_monitor.Syscalls.Overrun.{Overruns, sys_print_blacklist-Overruns}
use reference_monitor.Syscalls.Print.{PrintEnv, sys_print_blacklist}
use reference_monitor.Tests.Data.{
  add_env, api, api-Obeys, block_3, demo, demo-Holds, dir_b, file_a, guess, guess-Answered,
  inside_b, inside_b-Granted, low, low_bytes, password_env, secret, secret-Answered, sha, world,
  world-Inv,
}

password_check_lem_example :
    (r : ℤ) × (password_check sha (password_env secret) demo ≡ done r demo)
    × ((r ≡ pos 0) ↔ (sha.digest secret ≡ sha.digest secret))
    × ((r ≡ pos 0) ⊎ (r ≡ eacces))
password_check_lem_example =
    password_check_lem sha (password_env secret) demo secret secret secret-Answered refl

abbrev switch_off : List ℕ → Call
switch_off s = switch (pos 1) (password_env s) true

digests_differ : sha.digest guess ≢ sha.digest secret
unfolding low low_bytes
digests_differ e = ground arith

call-Declined_example : Returns (Declined world) (call 5 sha api 0 (switch_off guess) world)
call-Declined_example =
    call-Declined 5 sha api 0 world (password_env guess) guess secret (switch_off guess) refl
      guess-Answered refl (inl digests_differ)

call-Refused_example : Refused world (call 5 sha api 1000 (switch_off secret) world)
call-Refused_example =
    call-Refused 5 sha api 1000 world (switch_off secret) (λ e. absurd (omega arith)) refl

sys_switch_rf_state-granted_example :
    sys_switch_rf_state sha api (pos 1) (password_env secret) 0 false world
    ≡ done enomem (record {
      rf = record demo { locked = false; state = pos 1 };
      probes = some (probes_for api (pos 1) (probes_for api (pos 2) kprobe_array));
    })
unfolding rf_state_check
sys_switch_rf_state-granted_example =
    sys_switch_rf_state-granted 5 sha world (password_env secret) secret secret api (pos 1) false
      (probes_for api (pos 2) kprobe_array) secret-Answered refl refl refl refl refl

call-Inv_example :
    Returns (λ r w. Inv w) (call 5 sha api 0 (add (password_env secret) (add_env inside_b)) world)
call-Inv_example =
    call-Inv 5 sha api 0 world (add (password_env secret) (add_env inside_b)) world-Inv
      (omega arith) (omega arith) api-Obeys
      (secret, secret-Answered, inside_b, block_3, inside_b-Granted, refl)

-- A guess by root, then a look at the state by another user.
returned : (w : World) (r : Run World ℤ) → Returns (Declined w) r → (a : ℤ) × (r ≡ done a w)
returned w (done a w') h = (a, ap (done a) h.1)
returned w (fault f) h = absurd h

call-Declined_again : Returns (Declined world) (call 5 sha api 0 (switch_off guess) world)
call-Declined_again =
    call-Declined 5 sha api 0 world (password_env guess) guess secret (switch_off guess) refl
      guess-Answered refl (inl digests_differ)

guess-call : (a : ℤ) × (call 5 sha api 0 (switch_off guess) world ≡ done a world)
guess-call = returned world (call 5 sha api 0 (switch_off guess) world) call-Declined_again

look : call 5 sha api 1000 (get true) world ≡ done (pos 2) world
unfolding call sys_get_rf_state
look = refl

two_calls : Steps 5 sha api (Powerless sha secret) world world
two_calls =
    step 0 (switch_off guess) guess-call.0
      (inr (inr (password_env guess, guess, refl, guess-Answered, digests_differ))) guess-call.1
      (step 1000 (get true) (pos 2) (inr (inl refl)) look stop)

Steps-Powerless_example : world ≡ world
Steps-Powerless_example = Steps-Powerless 5 sha api secret world world refl two_calls

abbrev print_env : PrintEnv
print_env = record {
  buffer = true;
  enlarged = λ k. true;
  stale = some (replicate 100 65);
  left = 0;
}

sys_print_blacklist-Overruns_example : Overruns (sys_print_blacklist 5 print_env 2 demo)
sys_print_blacklist-Overruns_example =
    sys_print_blacklist-Overruns 3 print_env demo 1 2 file_a dir_b [] demo-Holds refl (λ k. refl)
      (omega arith)

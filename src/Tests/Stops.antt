-- ===== src/Tests/Stops.antt =====
-- A call with little and with much fuel, a path that is added and removed again, and a path that is
-- added twice.
use reference_monitor.Base.{arith, refl, true, ◌≡◌, ◌≢◌, ◌⊎◌}
use reference_monitor.Base.Int.{eexist, is_error, pos, ℤ}
use reference_monitor.Blacklist.{add_to_blacklist, remove_from_blacklist}
use reference_monitor.Blacklist.Add.{Added, Granted}
use reference_monitor.Blacklist.Undo.{add_to_blacklist-remove_from_blacklist}
use reference_monitor.CString.{c_str, str_eq}
use reference_monitor.Checks.{is_rf_rec}
use reference_monitor.Monitor.{load, spin_lock, store, write}
use reference_monitor.Monitor.Chain.{IsList}
use reference_monitor.Monitor.Edit.{contains}
use reference_monitor.Run.{Returns, Run, done, fault, hang}
use reference_monitor.Syscalls.{World}
use reference_monitor.Syscalls.Call.{Call, add, call}
use reference_monitor.Syscalls.Errors.{Late, Unchanged, call-Errors}
use reference_monitor.Syscalls.Grant.{sys_add_to_blacklist-Added}
use reference_monitor.Syscalls.Stops.{call-Stops}
use reference_monitor.Tests.Data.{
  add_env, api, block_3, cells, demo, demo-Holds, file_a, inside_b, inside_b-Granted, password_env,
  remove_env, secret, secret-Answered, sha, world,
}

call-Stops_example :
    (call 3 sha api 0 (add (password_env secret) (add_env inside_b)) world
      ≡ call 9 sha api 0 (add (password_env secret) (add_env inside_b)) world)
    × (call 3 sha api 0 (add (password_env secret) (add_env inside_b)) world ≢ fault hang)
call-Stops_example =
    call-Stops 3 9 sha api 0 world cells (add (password_env secret) (add_env inside_b)) demo-Holds
      (λ b e. let there : b ≡ block_3 = cc in rw there) (omega arith) (omega arith)

-- Without fuel for the list an insertion does hang.
insertion_hangs : add_to_blacklist 1 (add_env inside_b) demo ≡ fault hang
unfolding add_to_blacklist c_str str_eq load store spin_lock write
insertion_hangs = refl

add_to_blacklist-remove_from_blacklist_example :
    Returns
      (λ r m'.
        (r ≡ pos 0)
        × Returns
            (λ r' m2. (r' ≡ pos 0) × IsList m2 cells × (m2.size ≡ 3))
            (remove_from_blacklist 5 (remove_env inside_b) m'))
      (add_to_blacklist 5 (add_env inside_b) demo)
unfolding contains str_eq c_str
add_to_blacklist-remove_from_blacklist_example =
    add_to_blacklist-remove_from_blacklist 5 (add_env inside_b) (remove_env inside_b) demo cells
      inside_b block_3 demo-Holds refl inside_b-Granted refl (refl, omega arith, refl) (omega arith)
      (omega arith)

-- A path that is in the list already is not added again.
file_a-Granted : Granted (add_env file_a) cells file_a block_3
unfolding c_str
file_a-Granted = record {
  buffer = refl;
  copied = omega arith;
  terminated = refl;
  block = refl;
  path_buffer = refl;
  not_null = λ e. absurd (omega arith);
  fresh = refl;
}

abbrev again : Call
again = add (password_env secret) (add_env file_a)

outcome :
    (P : ℤ → World → Type 0) (r : Run World ℤ)
    → Returns P r
    → (a : ℤ) × (w : World) × (r ≡ done a w) × P a w
outcome P (done a w) h = (a, w, refl, h)
outcome P (fault f) h = elim h [ ]

added_again :
    (a : ℤ) × (w : World) × (call 5 sha api 0 again world ≡ done a w)
    × (Added demo cells file_a 3 a w.rf × (w.probes ≡ world.probes))
unfolding call is_rf_rec
added_again = outcome _ (call 5 sha api 0 again world) (
    sys_add_to_blacklist-Added 5 sha world (password_env secret) secret secret (add_env file_a)
      cells file_a block_3 secret-Answered refl refl refl demo-Holds file_a-Granted refl
      (omega arith))

exists_already : is_error added_again.0 ≡ true
unfolding contains str_eq
exists_already = let code : added_again.0 ≡ eexist = added_again.3.0.0 in rw code

call-Errors_example :
    Unchanged cells world added_again.1 ⊎ Late again world added_again.0 added_again.1
call-Errors_example =
    call-Errors 5 sha api 0 world cells again added_again.0 added_again.1 demo-Holds
      (λ b e. let there : b ≡ block_3 = cc in rw there) (omega arith) added_again.2 exists_already

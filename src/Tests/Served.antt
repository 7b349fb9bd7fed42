-- ===== src/Tests/Served.antt =====
-- The specification of the system calls at concrete inputs.
use reference_monitor.Base.{[], arith, codes, false, inl, refl, some, true, ◌↔◌, ◌≡◌}
use reference_monitor.Access.{is_blacklisted}
use reference_monitor.Access.Cover.{Covers}
use reference_monitor.Access.Decision.{is_active}
use reference_monitor.Base.Int.{pos}
use reference_monitor.Blacklist.Unique.{Unique}
use reference_monitor.CString.{c_str, str_eq}
use reference_monitor.Checks.{rf_state_check}
use reference_monitor.DentryPath.{get_path_from_dentry}
use reference_monitor.Monitor.{FilePath}
use reference_monitor.Monitor.Chain.{paths}
use reference_monitor.Monitor.Edit.{contains}
use reference_monitor.Probes.{Request, inode_link_entry_handler, wants_write}
use reference_monitor.Probes.Decides.{decision}
use reference_monitor.Probes.Mediation.{Says}
use reference_monitor.Probes.Table.{kprobe_array, security_inode_link, set_kretprobe}
use reference_monitor.Run.{Returns, done}
use reference_monitor.Syscalls.{World}
use reference_monitor.Syscalls.Call.{Call, add, call, switch}
use reference_monitor.Syscalls.Grant.{probes_for, sys_switch_rf_state-granted}
use reference_monitor.Syscalls.Spec.{Fits, View, protect, spec, to_state}
use reference_monitor.Syscalls.Spec.Asks.{Asks, asks_add, asks_switch}
use reference_monitor.Syscalls.Spec.Handlers.{Protected, Served-handlers}
use reference_monitor.Syscalls.Spec.Refines.{call-Fits}
use reference_monitor.Syscalls.Spec.Served.{Served, Served-decision, finish, serve}
use reference_monitor.Syscalls.Spec.Shows.{Allowed, Shows}
use reference_monitor.Tests.Data.{
  add_env, api, api-Obeys, block_3, cells, demo, dentry, dir_b, file_a, inside_b, inside_b-Granted,
  password_env, secret, secret-Answered, sha, world, world-Inv,
}

abbrev two_paths : View
two_paths = record { state = pos 2; protects = λ q. contains q (paths cells) }

world-Shows : Shows sha secret two_paths world
unfolding Unique contains str_eq
world-Shows = record {
  inv = world-Inv;
  kept = refl;
  unique = (refl, (refl, tt));
  state = refl;
  protects = λ q. refl;
}

abbrev add_inside : Call
add_inside = add (password_env secret) (add_env inside_b)

add_inside-Asks : Asks world add_inside (protect inside_b) (some secret)
add_inside-Asks =
    asks_add inside_b block_3 secret-Answered
      (inside_b-Granted.buffer, inside_b-Granted.copied, inside_b-Granted.terminated) (refl, refl)
      (inside_b-Granted.not_null, refl, refl)

root-Allowed : Allowed sha secret 0 (some secret) true
root-Allowed = (λ _. (refl, refl), λ _. refl)

call-Fits_example :
    Returns
      (λ r w'.
        Shows sha secret (spec true (protect inside_b) two_paths).0 w'
        × Fits (spec true (protect inside_b) two_paths).1 r)
      (call 5 sha api 0 add_inside world)
call-Fits_example =
    call-Fits 5 sha api secret two_paths world world-Shows api-Obeys (omega arith) (omega arith) 0
      add_inside (protect inside_b) (some secret) true add_inside-Asks root-Allowed

abbrev switch_on : Call
switch_on = switch (pos 0) (password_env secret) true

abbrev on_world : World
on_world = record {
  rf = record demo { locked = false; state = pos 0 };
  probes = some (probes_for api (pos 0) (probes_for api (pos 2) kprobe_array));
}

switch_on-run : call 5 sha api 0 switch_on world ≡ done (pos 0) on_world
unfolding call rf_state_check
switch_on-run =
    sys_switch_rf_state-granted 5 sha world (password_env secret) secret secret api (pos 0) true
      (probes_for api (pos 2) kprobe_array) secret-Answered refl refl refl refl refl

abbrev on_view : View
on_view = record { state = pos 0; protects = λ q. contains q (paths cells) }

one_call : Served 5 sha api secret two_paths world on_view on_world
unfolding spec
one_call =
    serve 0 switch_on (to_state (pos 0) true) (some secret) true (pos 0)
      (asks_switch (pos 0) true secret-Answered) root-Allowed (omega arith) (omega arith)
      switch_on-run finish

Served-decision_example : (is_blacklisted 5 (some inside_b) on_world.rf ≡ done 1 on_world.rf) ↔ (
    (is_active (pos 0) ≡ true)
    × (s : FilePath) × (contains s (paths cells) ≡ true)
    × Covers s inside_b)
Served-decision_example =
    Served-decision 5 sha api secret api-Obeys two_paths on_view world on_world inside_b world-Shows
      one_call (omega arith)

-- A link from a file of the protected directory to one that is protected itself.
abbrev link_request : Request
link_request = record { flags = 1; object = dentry inside_b 0; other = dentry file_a 0; dup = true }

inside_b-Protected : Protected on_view inside_b true
unfolding contains str_eq is_active
inside_b-Protected = (λ e. (refl, dir_b, refl, inl (codes "x", refl)), λ h. refl)

file_a-Protected : Protected on_view file_a true
unfolding contains str_eq is_active
file_a-Protected = (λ e. (refl, file_a, refl, inl ([], refl)), λ h. refl)

Served-handlers_example :
    Returns
      (Says on_world.rf (decision security_inode_link (wants_write 1) true true))
      (inode_link_entry_handler 5 link_request on_world.rf)
unfolding kprobe_array get_path_from_dentry c_str
Served-handlers_example =
    Served-handlers 5 sha api secret api-Obeys two_paths on_view world on_world 6
      (set_kretprobe security_inode_link inode_link_entry_handler) link_request inside_b file_a true
      true world-Shows one_call (omega arith) refl
      (record { object = refl; other = refl; fits = omega arith; other_fits = omega arith })
      inside_b-Protected file_a-Protected

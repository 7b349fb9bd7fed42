-- ===== src/Tests/Race.antt =====
-- A decision on a path that another processor takes out of the list meanwhile, before it adds another.
use reference_monitor.Base.{List, [], arith, refl, some, ◌∷◌, ◌≡◌}
use reference_monitor.Access.{finish_check, start_check}
use reference_monitor.Access.Race.Changes.{Changes, changed, finish_check-RightForSome, unchanged}
use reference_monitor.Access.Race.Shift.{adding, removing, set_under_lock, switching}
use reference_monitor.Access.Race.Stale.{RightForSome}
use reference_monitor.Base.Int.{pos}
use reference_monitor.Blacklist.{add_to_blacklist, remove_from_blacklist}
use reference_monitor.Blacklist.Add.{Granted}
use reference_monitor.CString.{c_str, str_eq, strncmp_eq}
use reference_monitor.Monitor.{
  Monitor, grow, load, node, set_head, set_next, shrink, spin_lock, spin_unlock, store, write,
}
use reference_monitor.Monitor.Chain.{Cells}
use reference_monitor.Monitor.Edit.{contains, erase_cell}
use reference_monitor.Run.{Returns, and_then, done}
use reference_monitor.Syscalls.{set_state}
use reference_monitor.Tests.Data.{
  add_env, block_3, cells, demo, demo-Holds, dir_b, file_a, inside_b, remove_env, two_nodes,
}

-- The removed path is still refused, as before the removal.
still_refused :
    and_then
      (remove_from_blacklist 5 (remove_env file_a) demo)
      (λ r. finish_check 5 (some file_a) (some 1))
    ≡ done 1 (record demo { head = 2; size = 1 })
unfolding remove_from_blacklist finish_check c_str str_eq strncmp_eq spin_lock spin_unlock load
    set_head shrink
still_refused = refl

-- The list without its first path, and then with a new path behind; then the monitor is off.
abbrev without_a : Monitor
without_a = record demo { head = 2; size = 1 }

abbrev with_inside_b : Monitor
unfolding write
with_inside_b = record without_a {
  size = 2;
  nodes = write (write two_nodes 3 (some (node inside_b 0))) 2 (some (node dir_b 3));
}

abbrev switched_off : Monitor
switched_off = record with_inside_b { state = pos 1 }

abbrev last_list : Cells
last_list = (2, dir_b) ∷ (3, inside_b) ∷ []

abbrev lists_seen : List Cells
lists_seen = last_list ∷ last_list ∷ ((2, dir_b) ∷ []) ∷ cells ∷ []

inside_b-Room : Granted (add_env inside_b) ((2, dir_b) ∷ []) inside_b block_3
unfolding c_str
inside_b-Room = record {
  buffer = refl;
  copied = omega arith;
  terminated = refl;
  block = refl;
  path_buffer = refl;
  not_null = λ e. absurd (omega arith);
  fresh = refl;
}

demo-Changes : Changes 6 demo cells switched_off last_list lists_seen
unfolding add_to_blacklist remove_from_blacklist contains erase_cell c_str str_eq load store
    set_next set_head grow shrink spin_lock spin_unlock write set_under_lock set_state
demo-Changes =
    changed (pos 0)
      (changed (pos 0)
        (changed (pos 0) unchanged (removing (remove_env file_a) file_a (refl, omega arith, refl))
          refl)
        (adding (add_env inside_b) inside_b block_3 inside_b-Room refl refl (omega arith)) refl)
      (switching (pos 1)) refl

finish_check-RightForSome_example :
    Returns
      (λ d n'. RightForSome file_a lists_seen d × (n' ≡ switched_off))
      (finish_check 6 (some file_a) (some 1) switched_off)
unfolding start_check
finish_check-RightForSome_example =
    finish_check-RightForSome 6 file_a demo switched_off cells last_list lists_seen 1 demo-Holds
      refl demo-Changes (omega arith)

-- The path that was removed is refused, although the monitor is off by then.
refused_when_off : finish_check 6 (some file_a) (some 1) switched_off ≡ done 1 switched_off
unfolding finish_check strncmp_eq spin_lock spin_unlock load write
refused_when_off = refl

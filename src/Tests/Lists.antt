-- ===== src/Tests/Lists.antt =====
-- The list operations and the decision at concrete inputs.
use reference_monitor.Base.{arith, refl, some, true, ℕ, ◌↔◌, ◌≡◌}
use reference_monitor.Access.{is_blacklisted}
use reference_monitor.Access.Cover.{Covers, covered, matches}
use reference_monitor.Access.Decision.{is_active, is_blacklisted-get_path, is_blacklisted_iff}
use reference_monitor.Base.Int.{pos, ℤ}
use reference_monitor.Blacklist.{add_to_blacklist, remove_from_blacklist}
use reference_monitor.Blacklist.Add.{Added, add_to_blacklist-Added}
use reference_monitor.Blacklist.Remove.{Removed, remove_from_blacklist-Removed}
use reference_monitor.CString.{c_str, ends_with, str_eq, strncmp_eq}
use reference_monitor.DentryPath.{get_path_from_dentry}
use reference_monitor.Monitor.{
  FilePath, Monitor, grow, load, set_next, spin_lock, spin_unlock, store, write,
}
use reference_monitor.Monitor.Chain.{paths}
use reference_monitor.Monitor.Edit.{contains}
use reference_monitor.Probes.{Request, open_entry_handler, wants_write}
use reference_monitor.Probes.Decides.{decision, kprobe_array-decision}
use reference_monitor.Probes.Mediation.{Says, protects}
use reference_monitor.Probes.Table.{kprobe_array, security_file_open, set_kretprobe}
use reference_monitor.Run.{Returns, done}
use reference_monitor.Tests.Data.{
  add_env, block_3, cells, demo, demo-Holds, dentry, dir_b, file_a, inside_b, inside_b-Granted,
  remove_env,
}

abbrev Outcome : ℤ → ℕ → ℤ → Monitor → Type 0
Outcome r n r' m = (r' ≡ r) × (m.size ≡ n)

add_to_blacklist-Added_example :
    Returns (Added demo cells inside_b 3) (add_to_blacklist 5 (add_env inside_b) demo)
add_to_blacklist-Added_example =
    add_to_blacklist-Added 5 (add_env inside_b) demo cells inside_b block_3 demo-Holds
      inside_b-Granted refl (omega arith)

remove_from_blacklist-Removed_example :
    Returns (Removed demo cells dir_b) (remove_from_blacklist 5 (remove_env dir_b) demo)
unfolding c_str
remove_from_blacklist-Removed_example =
    remove_from_blacklist-Removed 5 (remove_env dir_b) demo cells dir_b demo-Holds refl
      (omega arith) refl (omega arith)

-- A run of each: the new path is counted; taking out the second path leaves the count at 2.
add_runs : Returns (Outcome (pos 0) 3) (add_to_blacklist 5 (add_env inside_b) demo)
unfolding add_to_blacklist c_str str_eq load store set_next grow spin_lock spin_unlock write
add_runs = (refl, refl)

remove_runs : Returns (Outcome (pos 0) 2) (remove_from_blacklist 5 (remove_env dir_b) demo)
unfolding remove_from_blacklist c_str str_eq load store set_next spin_lock spin_unlock write
remove_runs = (refl, refl)

is_blacklisted_iff_example : (is_blacklisted 5 (some inside_b) demo ≡ done 1 demo) ↔ (
    (is_active demo.state ≡ true)
    × (s : FilePath) × (contains s (paths cells) ≡ true)
    × Covers s inside_b)
is_blacklisted_iff_example = is_blacklisted_iff 5 demo cells demo-Holds (omega arith) inside_b

-- A byte of junk behind the path does not hide it.
is_blacklisted-get_path_example :
    is_blacklisted 5 (get_path_from_dentry (dentry inside_b 7)) demo ≡ done 1 demo
unfolding is_active covered matches strncmp_eq ends_with
is_blacklisted-get_path_example =
    is_blacklisted-get_path 5 demo cells demo-Holds (omega arith) (dentry inside_b 7) inside_b refl
      refl refl (omega arith) refl refl

abbrev write_request : Request
write_request = record {
  flags = 1;
  object = dentry inside_b 0;
  other = dentry file_a 0;
  dup = true;
}

kprobe_array-decision_example :
    Returns
      (Says demo (
        decision security_file_open
          (wants_write 1)
          (protects demo cells inside_b)
          (protects demo cells file_a)))
      (open_entry_handler 5 write_request demo)
unfolding kprobe_array get_path_from_dentry c_str
kprobe_array-decision_example =
    kprobe_array-decision 0 (set_kretprobe security_file_open open_entry_handler) 5 demo cells
      write_request inside_b file_a refl demo-Holds (omega arith)
      (record { object = refl; other = refl; fits = omega arith; other_fits = omega arith })

-- ===== src/Tests/Programs.antt =====
-- The program that adds the directory, run as root.
use reference_monitor.Base.{arith, codes, if◌then◌else◌, inl, refl, true, ◌++◌, ◌≡◌}
use reference_monitor.Access.Cover.{covered}
use reference_monitor.Base.Int.{pos}
use reference_monitor.Blacklist.Add.{Granted}
use reference_monitor.Blacklist.Keeps.{with_path}
use reference_monitor.CString.{c_str}
use reference_monitor.Checks.{is_rf_rec}
use reference_monitor.Monitor.{FilePath}
use reference_monitor.Monitor.Chain.{IsList, paths}
use reference_monitor.Monitor.Edit.{contains}
use reference_monitor.Run.{Returns}
use reference_monitor.Syscalls.{sys_add_to_blacklist}
use reference_monitor.Tests.Data.{
  add_env, block_3, cells, demo-Holds, password_env, secret-Answered, sha, world,
}
use reference_monitor.UserPrograms.Paths.{add_program, add_program-Protects, rf_dir}

rf_dir-Granted : Granted (add_env rf_dir) cells rf_dir block_3
unfolding c_str
rf_dir-Granted = record {
  buffer = refl;
  copied = omega arith;
  terminated = refl;
  block = refl;
  path_buffer = refl;
  not_null = λ e. absurd (omega arith);
  fresh = refl;
}

abbrev inside_rf : FilePath
inside_rf = rf_dir ++ codes "x"

add_program-Protects_example :
    Returns
      (λ r w'.
        (r ≡ (if contains rf_dir (paths cells) then pos 1 else pos 0))
        × IsList w'.rf (with_path rf_dir 3 cells)
        × (covered inside_rf (paths (with_path rf_dir 3 cells)) ≡ true))
      (add_program true
        (λ s psw. sys_add_to_blacklist 5 sha (password_env psw) 0 (add_env s))
        world)
unfolding is_rf_rec
add_program-Protects_example =
    add_program-Protects 5 sha world cells password_env add_env block_3 inside_rf secret-Answered
      refl refl demo-Holds rf_dir-Granted refl (omega arith) (inl (codes "x", refl))

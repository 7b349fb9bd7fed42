-- ===== src/Tests/LogFile.antt =====
-- The log file system at concrete inputs.
use reference_monitor.Base.{
  List, [], arith, codes, false, if◌then◌else◌, leb, length-replicate, ltb, refl, replicate, some,
  take, true, ℕ, ◌==◌, ◌∷◌, ◌≡◌, ◌≤◌, ◌⊎◌,
}
use reference_monitor.Base.Int.{pos}
use reference_monitor.Log.{LogData}
use reference_monitor.Log.Deferred.{WorkEnv, print_row}
use reference_monitor.Log.Written.{Reported, WorkGranted, work_queue, work_queue-Reported}
use reference_monitor.LogFs.{Fs, WriteEnv, onefile_write}
use reference_monitor.LogFs.Append.{granted}
use reference_monitor.LogFs.Dir.{
  DirContext, Progress, entries, onefilefs_iterate, onefilefs_iterate-Progress,
}
use reference_monitor.LogFs.Errors.{onefile_write-overflow}
use reference_monitor.LogFs.FirstMount.{Complete, Mounts, main-Mounts, on_device}
use reference_monitor.LogFs.Format.{Sizes}
use reference_monitor.LogFs.MakeFs.{MakeEnv, main}
use reference_monitor.LogFs.Mount.{bound, uint64_at}
use reference_monitor.LogFs.Reads.{Ready}
use reference_monitor.LogFs.Remount.{append_rows-remounted, remounted}
use reference_monitor.LogFs.Rows.{Logged, append_rows, append_rows-Logged}
use reference_monitor.Run.{Returns, fault, overflow}
use reference_monitor.Tests.Data.{hash_env, sha}

-- A blank device of 100 blocks, with 58 bytes in the file.
abbrev fs_58 : Fs
fs_58 = record {
  device = λ b. replicate 4096 0;
  faulty = λ b. leb 100 b;
  i_size = 58;
  locked = false;
}

fs_58-Ready : Ready 100 fs_58
fs_58-Ready = record {
  readable = λ b lt. ground arith;
  sized = λ b. length-replicate {A = ℕ} 4096 0;
  unlocked = refl;
}

abbrev row_a : List ℕ
row_a = codes "1, 1, 0, 0, /bin/rm, ab\n"

abbrev row_b : List ℕ
row_b = codes "2, 2, 0, 0, /bin/mv, cd\n"

abbrev access : LogData
access = record { tid = 7; tgid = 7; uid = 1000; euid = 0; exe_path = some (codes "/bin/rm") }

abbrev work_env : WorkEnv
work_env = record { hash = hash_env; opened = true }

work_env-WorkGranted : WorkGranted work_env
work_env-WorkGranted = record {
  transform = refl;
  desc = refl;
  digest_buffer = refl;
  status = refl;
  result = refl;
  opened = refl;
}

append_rows-Logged_example :
    Returns
      (λ _ fs'. Logged 100 fs_58 (row_a ∷ row_b ∷ []) fs')
      (append_rows (row_a ∷ row_b ∷ []) fs_58)
append_rows-Logged_example =
    append_rows-Logged 100 fs_58 (row_a ∷ row_b ∷ []) fs_58-Ready
      ((omega arith, omega arith), ((omega arith, omega arith), tt)) (omega arith) (omega arith)

append_rows-remounted_example :
    Returns
      (λ _ fs'.
        Returns
          (λ r fs''. (r ≡ bound) × (fs''.i_size ≡ uint64_at 24 (fs_58.device 1)))
          (remounted fs'))
      (append_rows (row_a ∷ []) fs_58)
append_rows-remounted_example =
    append_rows-remounted 100 fs_58 (row_a ∷ []) fs_58-Ready ((omega arith, omega arith), tt)
      (omega arith) (omega arith)

work_queue-Reported_example :
    Returns
      (λ _ fs'. Reported 100 sha fs_58 (access ∷ access ∷ []) fs')
      (work_queue sha work_env (access ∷ access ∷ []) fs_58)
work_queue-Reported_example =
    work_queue-Reported 100 sha work_env fs_58 (access ∷ access ∷ []) work_env-WorkGranted
      fs_58-Ready ((codes "/bin/rm", refl), ((codes "/bin/rm", refl), tt)) (omega arith)
      (omega arith)

-- One byte less could be copied than the payload has.
abbrev short_copy : WriteEnv
short_copy = record { buffer = true; copied = 2; payload = 1 ∷ 2 ∷ 3 ∷ [] }

onefile_write-overflow_example : onefile_write (granted (replicate 5000 65)) fs_58 ≡ fault overflow
onefile_write-overflow_example =
    onefile_write-overflow 100 fs_58 (replicate 5000 65) fs_58-Ready
      (rw (length-replicate {A = ℕ} 5000 65) (omega arith)) (omega arith) (omega arith)

-- A listing that was interrupted behind the first entry, and is interrupted again.
abbrev after_first : DirContext
after_first = record { at = 1; emitted = take 1 (entries (λ _. replicate 255 120)) }

onefilefs_iterate-Progress_example :
    Progress
      (λ _. replicate 255 120)
      (onefilefs_iterate (λ _. replicate 255 120) (λ k. ltb k 2) after_first)
    × (1 ≤ (onefilefs_iterate (λ _. replicate 255 120) (λ k. ltb k 2) after_first).at)
    × (((onefilefs_iterate (λ _. replicate 255 120) (λ k. ltb k 2) after_first).at ≡ 3)
        ⊎ (ltb (onefilefs_iterate (λ _. replicate 255 120) (λ k. ltb k 2) after_first).at 2
            ≡ false))
onefilefs_iterate-Progress_example =
    onefilefs_iterate-Progress (λ _. replicate 255 120) (λ k. ltb k 2) after_first
      (omega arith, refl)

-- Runs: a row prints as the source's format says; it is where the file ended; a magic number is read.
print_row_runs : print_row access (some (codes "ff")) ≡ codes "7, 7, 1000, 0, /bin/rm, ff\n"
unfolding print_row
print_row_runs = refl

abbrev make_env : MakeEnv
make_env = record {
  argc = 2;
  opened = true;
  taken = λ k.
      if k == 0
      then some 4096
      else if k == 1
      then some 32
      else if k == 2
      then some 4064
      else some 58;
  super_rest = replicate 4072 1;
  gap = replicate 4 2;
  data_block = replicate 8 3;
  padding = replicate 4064 4;
}

make_env-Sizes : Sizes make_env
make_env-Sizes = record {
  super_rest = length-replicate {A = ℕ} 4072 1;
  gap = length-replicate {A = ℕ} 4 2;
  data_block = length-replicate {A = ℕ} 8 3;
  padding = length-replicate {A = ℕ} 4064 4;
}

make_env-Complete : Complete make_env
make_env-Complete = record {
  argc = refl;
  opened = refl;
  first = refl;
  second = refl;
  third = refl;
  fourth = refl;
}

main-Mounts_example :
    Returns (λ r written. (r ≡ pos 0) × Mounts (on_device fs_58 written)) (main make_env [])
main-Mounts_example =
    main-Mounts make_env 100 fs_58 make_env-Sizes make_env-Complete fs_58-Ready (omega arith)

-- ===== src/Log/Written.antt =====
-- The rows of the deferred work in the log file: the logger over the log file system.
use reference_monitor.Base.{
  All, List, [], arith, length, refl, some, true, ℕ, ◌*◌, ◌+◌, ◌/◌, ◌<◌, ◌^◌, ◌∙◌, ◌∷◌, ◌≡◌, ◌≤◌,
}
use reference_monitor.Base.Int.{pos, ℤ}
use reference_monitor.Log.{LogData}
use reference_monitor.Log.Deferred.{WorkEnv, deferred_work, length-print_row, print_row}
use reference_monitor.LogFs.{Fs, block_size, onefile_write}
use reference_monitor.LogFs.Append.{granted}
use reference_monitor.LogFs.Reads.{Ready}
use reference_monitor.LogFs.Rows.{Appended, IsRow, Kept, Same, Kept-later, onefile_write-Appended}
use reference_monitor.Monitor.Chain.{has, paths}
use reference_monitor.Password.{Sha256, encrypt_password, hex}
use reference_monitor.Run.{Cmd, Returns, Returns-bind, Returns-mono, pure, ◌>>=◌, ◌>>◌}

-- `kernel_write` on the log file, when the kernel grants it memory
unfoldable pub write_to_log : List ℕ → Cmd Fs ℤ
write_to_log bytes = onefile_write (granted bytes)

-- The work that was queued, in order.
unfoldable pub work_queue : Sha256 → WorkEnv → List LogData → Cmd Fs (Unit {0})
work_queue sha e [] = pure tt
work_queue sha e (d ∷ queue) = do deferred_work sha write_to_log e d; work_queue sha e queue

-- The hash that was computed, for a path that could be copied.
abbrev pub row_of : Sha256 → LogData → (path : List ℕ) → List ℕ
row_of sha d path = print_row (record d { exe_path = some path }) (some (hex (sha.digest path)))

abbrev pub HasPath : LogData → Type 0
HasPath d = (path : List ℕ) × (d.exe_path ≡ some path)

-- The kernel grants the hash and opens the log.
pub record WorkGranted (e : WorkEnv) : Type 0 where
  pub transform : e.hash.transform ≡ true
  pub desc : e.hash.desc ≡ true
  pub digest_buffer : e.hash.digest_buffer ≡ true
  pub status : e.hash.status ≡ 0
  pub result : e.hash.result ≡ true
  pub opened : e.opened ≡ true

-- The row with the path and its hash is in the file.
abbrev pub InLog : Sha256 → Fs → LogData → Type 0
InLog sha fs d = (path : List ℕ) × (d.exe_path ≡ some path) × Kept fs (row_of sha d path)

deferred_work_lem :
    (sha : Sha256) (e : WorkEnv) (g : WorkGranted e) (d : LogData) (path : List ℕ)
    → d.exe_path ≡ some path
    → (fs : Fs)
    → deferred_work sha write_to_log e d fs
      ≡ (onefile_write (granted (row_of sha d path)) >>= λ _. pure tt) fs
unfolding deferred_work encrypt_password write_to_log
deferred_work_lem sha e g d path has fs =
    rw (has, g.transform, g.desc, g.digest_buffer, g.status, g.result, g.opened) refl

row_of-IsRow : (sha : Sha256) (d : LogData) (path : List ℕ) → IsRow (row_of sha d path)
row_of-IsRow sha d path =
    let (some_byte, le) =
      length-print_row (record d { exe_path = some path }) (some (hex (sha.digest path))) in
    (some_byte, omega arith)

deferred_work-Appended :
    (n : ℕ) (sha : Sha256) (e : WorkEnv) (g : WorkGranted e) (d : LogData) (path : List ℕ) (fs : Fs)
    → d.exe_path ≡ some path
    → Ready n fs
    → fs.i_size + 510 < 2 ^ 42
    → fs.i_size / block_size + 3 < n
    → Returns
        (λ _ fs'. Appended n fs (row_of sha d path) fs' × (fs'.i_size ≤ fs.i_size + 510))
        (deferred_work sha write_to_log e d fs)
deferred_work-Appended n sha e g d path fs has ok room high =
    let row = row_of sha d path in
    let (some_byte, le) =
      length-print_row (record d { exe_path = some path }) (some (hex (sha.digest path))) in
    rw (deferred_work_lem sha e g d path has fs) (
      Returns-bind (λ r fs'. (r ≡ pos (length row)) × Appended n fs row fs')
        (λ _ fs'. Appended n fs row fs' × (fs'.i_size ≤ fs.i_size + 510))
        (onefile_write (granted row) fs) (λ _. pure tt)
        (onefile_write-Appended n fs row ok (row_of-IsRow sha d path) (omega arith) high)
        (λ r fs' (e, a). (a, omega (arith, a.bounded))))

pub record Reported (n : ℕ) (sha : Sha256) (fs : Fs) (queue : List LogData) (fs' : Fs)
    : Type 0 where
  pub ready : Ready n fs'
  pub larger : fs.i_size ≤ fs'.i_size
  pub same : Same fs fs'
  pub reported : All (InLog sha fs') queue

later :
    (sha : Sha256) (fs fs' : Fs) (d : LogData)
    → fs.i_size ≤ fs'.i_size
    → Same fs fs'
    → InLog sha fs d
    → InLog sha fs' d
later sha fs fs' d le same (path, has, k) =
    (path, has, Kept-later fs fs' (row_of sha d path) (row_of-IsRow sha d path).0 le same k)

-- The log device has room, and the kernel grants the hash, the file and the writes. Then the work for
-- a queue of accesses, each with the path of its program, comes back; what was in the log reads as
-- before; and for every access of the queue the row with its ids, its path and the digest, cut to 255 bytes, of
-- that path (the code takes the digest of the program's path, not of the file's content) can be read
-- back in one piece.
pub work_queue-Reported :
    (n : ℕ) (sha : Sha256) (e : WorkEnv) (fs : Fs) (queue : List LogData)
    → WorkGranted e
    → Ready n fs
    → All HasPath queue
    → fs.i_size + 510 * length queue < 2 ^ 42
    → (fs.i_size + 510 * length queue) / block_size + 3 < n
    → Returns (λ _ fs'. Reported n sha fs queue fs') (work_queue sha e queue fs)
unfolding work_queue
work_queue-Reported n sha e fs [] g ok paths room high = record {
  ready = ok;
  larger = omega arith;
  same = λ left len off lt le. refl;
  reported = tt;
}
work_queue-Reported n sha e fs (d ∷ queue) g ok paths room high =
    let (path, has) = paths.0 in
    Returns-bind (λ _ fs1. Appended n fs (row_of sha d path) fs1 × (fs1.i_size ≤ fs.i_size + 510))
      (λ _ fs'. Reported n sha fs (d ∷ queue) fs') (deferred_work sha write_to_log e d fs)
      (λ _. work_queue sha e queue)
      (deferred_work-Appended n sha e g d path fs has ok (omega arith) (omega arith))
      (λ _ fs1 (a, bounded).
        Returns-mono (λ _ fs'. Reported n sha fs1 queue fs')
          (λ _ fs'. Reported n sha fs (d ∷ queue) fs') (work_queue sha e queue fs1)
          (work_queue-Reported n sha e fs1 queue g a.ready paths.1 (omega arith) (omega arith))
          (λ _ fs' l.
            let le = a.larger in
            let le' = l.larger in
            record {
              ready = l.ready;
              larger = omega arith;
              same = λ left len off lt in_file.
                  l.same left len off (omega arith) (omega arith) ∙ a.same left len off lt in_file;
              reported = (later sha fs1 fs' d l.larger l.same (path, has, a.kept), l.reported);
            }))

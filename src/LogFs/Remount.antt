-- ===== src/LogFs/Remount.antt =====
-- What of the log outlives an unmount: the size in the inode block is read at the lookup and never
-- written, so a new lookup goes back to it.
use reference_monitor.Base.{All, List, ap, arith, false, refl, true, ℕ, ◌+◌, ◌/◌, ◌<◌, ◌^◌, ◌≡◌}
use reference_monitor.CString.{str_eq, str_eq_refl}
use reference_monitor.LogFs.{Fs, block_size, sb_bread}
use reference_monitor.LogFs.Mount.{
  Looked, bound, fresh, onefilefs_lookup, uint64_at, unique_file_name,
}
use reference_monitor.LogFs.Reads.{Ready}
use reference_monitor.LogFs.Rows.{IsRow, Logged, append_rows, append_rows-Logged, total}
use reference_monitor.Run.{Returns, Returns-mono, Run}

-- The file after a fresh lookup, on the device as `fs` left it.
unfoldable pub remounted : Fs → Run Fs Looked
remounted fs = onefilefs_lookup fresh unique_file_name fs

found_name : str_eq unique_file_name unique_file_name ≡ true
found_name = str_eq_refl unique_file_name

remounted_lem :
    (fs : Fs)
    → fs.faulty 1 ≡ false
    → {k : ℕ} → uint64_at 24 (fs.device 1) ≡ k
    → Returns (λ r fs'. (r ≡ bound) × (fs'.i_size ≡ k)) (remounted fs)
unfolding remounted onefilefs_lookup sb_bread
remounted_lem fs good e = rw (found_name, good) (refl, e)

-- On a device with room, after rows of 1 to 4096 bytes were written, an unmount and a new lookup give
-- the file the size that block 1 held before the writes.
pub append_rows-remounted :
    (n : ℕ) (fs : Fs) (rows : List (List ℕ))
    → Ready n fs
    → All IsRow rows
    → fs.i_size + total rows < 2 ^ 42
    → (fs.i_size + total rows) / block_size + 3 < n
    → Returns
        (λ _ fs'.
          Returns
            (λ r fs''. (r ≡ bound) × (fs''.i_size ≡ uint64_at 24 (fs.device 1)))
            (remounted fs'))
        (append_rows rows fs)
append_rows-remounted n fs rows ok are room high =
    Returns-mono (λ _ fs'. Logged n fs rows fs')
      (λ _ fs'.
        Returns (λ r fs''. (r ≡ bound) × (fs''.i_size ≡ uint64_at 24 (fs.device 1)))
          (remounted fs'))
      (append_rows rows fs) (append_rows-Logged n fs rows ok are room high)
      (λ _ fs' l.
        let good : fs'.faulty 1 ≡ false = l.ready.readable 1 (omega arith) in
        let e : fs'.device 1 ≡ fs.device 1 = l.head.1 in
        remounted_lem fs' good (ap (uint64_at 24) e))

-- ===== src/UserPrograms/Files.antt =====
-- reference-monitor/user/open.c and log-filesystem/user.c: the programs that write to a file. What
-- they print is not part of the model.
-- open.c: whether `fopen` gives a stream; what `fwrite`, `fread` do with it; and the 16 bytes that
-- `read_buffer` happens to hold, up to whose first 0 `fread` may fill it.
use reference_monitor.Base.{
  Bool, List, arith, codes, false, if◌then◌else◌, length, none, not, some, ℕ, ◌++◌, ◌+◌, ◌/◌, ◌<◌,
  ◌^◌, ◌∷◌, ◌≡◌, ◌≤◌,
}
use reference_monitor.Base.Int.{lt_pos, pos, ℤ}
use reference_monitor.CString.{c_str}
use reference_monitor.LogFs.{Fs, block_size, onefile_write}
use reference_monitor.LogFs.Append.{granted}
use reference_monitor.LogFs.Reads.{Ready}
use reference_monitor.LogFs.Rows.{Appended, onefile_write-Appended}
use reference_monitor.Run.{Cmd, Returns, Returns-bind, fail, overrun, pure, ◌>>=◌, ◌>>◌}

open_program :
    {S : Type 0}
    → (fopen : Bool) → (fwrite : List ℕ → Cmd S (Unit {0})) → (fread : ℕ → Cmd S (List ℕ))
    → (read_buffer : List ℕ) → Cmd S ℤ
open_program fopen fwrite fread read_buffer = if not fopen then pure (pos 0) else do
  fwrite (codes "Ciao")
  elim (c_str read_buffer) [ none ↦ fail overrun | some s ↦ do fread (length s); pure (pos 0) ]

-- log-filesystem/user.c: the text, in UTF-8, and the result of `main`.
abbrev log_text : List ℕ
log_text = codes "Questo " ++ 195 ∷ 168 ∷ codes " un messaggio di log.\n"

log_program : {S : Type 0} → (open_call : Cmd S ℤ) → (write_call : ℤ → List ℕ → Cmd S ℤ) → Cmd S ℤ
log_program open_call write_call = do
  fd ← open_call
  if lt_pos fd 0
      then pure (pos 1)
      else do n ← write_call fd log_text; pure (if lt_pos n 0 then pos 1 else pos 0)

-- On a device with room, where the file is opened and the kernel grants memory and copy, the program
-- exits with 0, and the text is in the log.
log_program-Appended :
    (n : ℕ) (fs : Fs) (fd : ℕ)
    → Ready n fs
    → fs.i_size + 62 < 2 ^ 42
    → fs.i_size / block_size + 3 < n
    → Returns
        (λ r fs'. (r ≡ pos 0) × Appended n fs log_text fs')
        (log_program (pure (pos fd)) (λ fd bytes. onefile_write (granted bytes)) fs)
unfolding log_program
log_program-Appended n fs fd ok room high =
    let opened : lt_pos (pos fd) 0 ≡ false = ground arith in
    rw opened (
      Returns-bind _ _ (onefile_write (granted log_text) fs) _
        (onefile_write-Appended n fs log_text ok (omega arith, within) room high)
        (λ r fs' (e, after). (rw e, after)))
  where
    within : 31 ≤ block_size
    within = omega arith

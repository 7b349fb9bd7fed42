-- ===== src/LogFs/MakeFs.antt =====
-- log-filesystem/singlefilemakefs.c: writing an empty file system to a device. What the structures
-- and the padding hold where the program sets nothing is an argument.
use reference_monitor.Base.{
  Bool, List, Option, [], codes, if◌then◌else◌, length, none, not, some, suc, take, zero, ℕ, ◌%◌,
  ◌++◌, ◌-◌, ◌/◌, ◌==◌, ◌∷◌,
}
use reference_monitor.Base.Int.{eq_pos, negsuc, pos, ℤ}
use reference_monitor.LogFs.{block_size}
use reference_monitor.LogFs.Mount.{magic}
use reference_monitor.Run.{Cmd, done, pure, ◌>>=◌}

-- The lowest `k` bytes of a number, the lowest first
unfoldable pub bytes_of : (k n : ℕ) → List ℕ
bytes_of zero n = []
bytes_of (suc k) n = (n % 256) ∷ bytes_of k (n / 256)

-- `file_body`
abbrev pub file_body : List ℕ
file_body = codes "TID, TGID, UID, EUID, Offending program path, Fingerprint\n"

-- The arguments, whether the device could be opened, how many bytes each `write` takes (`none` for
-- -1), and what is in the memory that is not set: the rest of the superblock, the gap behind the mode,
-- the number of the data block, and the padding.
pub record MakeEnv : Type 0 where
  pub argc : ℕ
  pub opened : Bool
  pub taken : ℕ → Option ℕ
  pub super_rest : List ℕ
  pub gap : List ℕ
  pub data_block : List ℕ
  pub padding : List ℕ

unfoldable pub super_block : MakeEnv → List ℕ
super_block e = bytes_of 8 1 ++ (bytes_of 8 magic ++ (bytes_of 8 block_size ++ e.super_rest))

-- `S_IFREG`, the number of the inode and the size of the file
unfoldable pub file_inode : MakeEnv → List ℕ
file_inode e =
    bytes_of 4 32768 ++ (e.gap ++ (bytes_of 8 1 ++ (e.data_block ++ bytes_of 8 (length file_body))))

-- The state is the list of the bytes that were written.
unfoldable pub put : MakeEnv → (index : ℕ) → List ℕ → Cmd (List ℕ) ℤ
put e index bytes written = elim (e.taken index) [
  | none ↦ done (negsuc 0) written
  | some k ↦ done (pos k) (written ++ take k bytes)
]

unfoldable pub main : MakeEnv → Cmd (List ℕ) ℤ
main e = if not (e.argc == 2) then pure (negsuc 0) else if not e.opened then pure (negsuc 0) else do
  ret ← put e 0 (super_block e)
  if not (eq_pos ret block_size) then pure ret else do
    ret ← put e 1 (file_inode e)
    if not (eq_pos ret 32) then pure (negsuc 0) else do
      ret ← put e 2 e.padding
      if not (eq_pos ret (block_size - 32)) then pure (negsuc 0) else do
        ret ← put e 3 file_body
        if not (eq_pos ret (length file_body)) then pure (negsuc 0) else pure (pos 0)

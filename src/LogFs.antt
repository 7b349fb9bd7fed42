-- ===== src/LogFs.antt =====
-- log-filesystem/file.c: reading and appending to the one file of the log file system.
--
-- A device is its blocks; the buffer of a block and the block are one here, since every change is
-- marked dirty. `faulty` says for which blocks `sb_bread` gives NULL. `int` holds the number of a
-- block, and `sb_bread` takes it as a `sector_t`.
pub mod Slices
pub mod FirstMount
pub mod MakeFs
pub mod Format
pub mod Driver
pub mod Errors
pub mod Remount
pub mod Mount
pub mod Dir
pub mod Rows
pub mod History
pub mod Append
pub mod Reads
use reference_monitor.Base.{
  Bool, List, Option, [], drop, false, if◌then◌else◌, leb, length, ltb, none, not, some, take, true,
  ℕ, ◌%◌, ◌++◌, ◌+◌, ◌-◌, ◌/◌, ◌==◌, ◌^◌,
}
use reference_monitor.Base.Int.{eio, pos, ℤ}
use reference_monitor.Run.{
  Cmd, bad_unlock, deadlock, done, fail, fault, overflow, overrun, pure, ◌>>=◌, ◌>>◌,
}

abbrev pub block_size : ℕ
block_size = 4096

-- The device, the size in the inode of the file, and `mutex`.
pub record Fs : Type 0 where
  pub device : ℕ → List ℕ
  pub faulty : ℕ → Bool
  pub i_size : ℕ
  pub locked : Bool

unfoldable pub mutex_lock : Cmd Fs (Unit {0})
mutex_lock fs = if fs.locked then fault deadlock else done tt (record fs { locked = true })

unfoldable pub mutex_unlock : Cmd Fs (Unit {0})
mutex_unlock fs = if fs.locked then done tt (record fs { locked = false }) else fault bad_unlock

-- The `sector_t` that the `int` with the value `n` becomes.
unfoldable pub sector : ℕ → ℕ
sector n = let b = n % 2 ^ 32 in if ltb b (2 ^ 31) then b else b + (2 ^ 64 - 2 ^ 32)

-- NULL for a block that cannot be read
unfoldable pub sb_bread : ℕ → Cmd Fs (Option (List ℕ))
sb_bread b fs = done (if fs.faulty b then none else some (fs.device b)) fs

get_size : Cmd Fs ℕ
get_size fs = done fs.i_size fs

unfoldable pub leave : {A : Type 0} → A → Cmd Fs A
leave r = do mutex_unlock; pure r

-- The result of a read, `*off` after it, and the bytes that reached the buffer of the caller.
pub record ReadResult : Type 0 where
  pub count : ℤ
  pub off : ℕ
  pub bytes : List ℕ

abbrev nothing : ℤ → ℕ → ReadResult
nothing r off = record { count = r; off = off; bytes = [] }

-- `if (*off + len > file_size) len = file_size - *off;`
unfoldable pub within_file : (file_size off len : ℕ) → ℕ
within_file file_size off len =
    if ltb file_size ((off + len) % 2 ^ 64) then file_size - off else len

-- `if (offset + len > DEFAULT_BLOCK_SIZE) len = DEFAULT_BLOCK_SIZE - offset;`
unfoldable pub within_block : (offset len : ℕ) → ℕ
within_block offset len =
    if ltb block_size ((offset + len) % 2 ^ 64) then block_size - offset else len

-- `copy_to_user`, which leaves `left` bytes uncopied
unfoldable pub copy_out : (left : ℕ) → (block : List ℕ) → (offset len off : ℕ) → Cmd Fs ReadResult
copy_out left block offset len off =
    if ltb (length block) (offset + len)
    then fail overrun
    else pure (record {
      count = pos (len - left);
      off = off + (len - left);
      bytes = take (len - left) (drop offset block);
    })

read_block : (left len off : ℕ) → Cmd Fs ReadResult
read_block left len off = do
  bh ← sb_bread (sector (off / block_size + 2))
  elim bh [
    | none ↦ leave (nothing eio off)
    | some block ↦ do
      r ← copy_out left block (off % block_size) (within_block (off % block_size) len) off
      leave r
  ]

unfoldable pub onefilefs_read : (left len off : ℕ) → Cmd Fs ReadResult
unfolding leave read_block get_size
onefilefs_read left len off = do
  file_size ← get_size
  mutex_lock
  if leb file_size off
      then leave (nothing (pos 0) off)
      else read_block left (within_file file_size off len) off

-- What the kernel answers to a write: memory for the data, how many bytes of the payload could be
-- copied, and the payload.
pub record WriteEnv : Type 0 where
  pub buffer : Bool
  pub copied : ℕ
  pub payload : List ℕ

-- Where a payload goes: the block, the offset in it, and the position in the file.
pub record Place : Type 0 where
  pub block : ℕ
  pub offset : ℕ
  pub start : ℕ

unfoldable pub place : (file_size payload : ℕ) → Place
place file_size payload =
    if ltb (block_size - file_size % block_size) payload
    then record {
      block = file_size / block_size + 2 + 1;
      offset = 0;
      start = file_size + (block_size - file_size % block_size);
    }
    else record {
      block = file_size / block_size + 2;
      offset = file_size % block_size;
      start = file_size;
    }

-- `memcpy(bh->b_data + offset, data, payload)`
unfoldable pub splice : (offset : ℕ) → (bytes block : List ℕ) → List ℕ
splice offset bytes block = take offset block ++ (bytes ++ drop (offset + length bytes) block)

put_block : ℕ → List ℕ → Cmd Fs (Unit {0})
put_block b block fs = done tt (record fs { device = λ c. if c == b then block else fs.device c })

-- `if (offset + payload > file_size) i_size_write(the_inode, offset + payload);`
unfoldable pub grow_to : ℕ → Cmd Fs (Unit {0})
grow_to file_size fs =
    done tt (if ltb fs.i_size file_size then record fs { i_size = file_size } else fs)

copy_in : (b : ℕ) → (offset : ℕ) → (bytes block : List ℕ) → Cmd Fs (Unit {0})
copy_in b offset bytes block =
    if ltb (length block) (offset + length bytes)
    then fail overflow
    else put_block b (splice offset bytes block)

append_data : List ℕ → Cmd Fs ℤ
append_data bytes = do
  file_size ← get_size
  let p = place file_size (length bytes)
  bh ← sb_bread (sector p.block)
  elim bh [
    | none ↦ leave eio
    | some block ↦ do
      copy_in (sector p.block) p.offset bytes block
      grow_to (p.start + length bytes)
      leave (pos (length bytes))
  ]

unfoldable pub onefile_write : WriteEnv → Cmd Fs ℤ
unfolding leave append_data copy_in put_block get_size
onefile_write e = do
  mutex_lock
  if not e.buffer
      then leave (pos 0)
      else if not (e.copied == length e.payload)
      then leave (pos 0)
      else append_data e.payload

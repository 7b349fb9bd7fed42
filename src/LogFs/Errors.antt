-- ===== src/LogFs/Errors.antt =====
-- How a write ends, on every branch.
use reference_monitor.Base.{
  ==_refl, List, ap, arith, drop, false, if◌then◌else◌, length, ltb, refl, take, true, ℕ, ◌%◌, ◌+◌,
  ◌-◌, ◌/◌, ◌<◌, ◌==◌, ◌^◌, ◌≡◌, ◌⊎◌,
}
use reference_monitor.Base.Int.{eio, pos, ℤ}
use reference_monitor.LogFs.{
  Fs, WriteEnv, block_size, mutex_lock, onefile_write, place, sb_bread, sector, splice,
}
use reference_monitor.LogFs.Append.{granted}
use reference_monitor.LogFs.Reads.{Ready, sector_lem}
use reference_monitor.LogFs.Slices.{slice}
use reference_monitor.Run.{Run, done, fault, overflow}

place_large :
    (s k : ℕ)
    → block_size < k
    → (sector (place s k).block ≡ sector (s / block_size + 3)) × ((place s k).offset ≡ 0)
unfolding place
place_large s k lt =
    let e : ltb (block_size - s % block_size) k ≡ true = ground arith in
    rw e (ap sector (omega arith), refl)

-- A payload of more than 4096 bytes, for which the kernel grants memory and copy, on a device with
-- room: the write goes past the end of the buffer of its block.
pub onefile_write-overflow :
    (n : ℕ) (fs : Fs) (bytes : List ℕ)
    → Ready n fs
    → block_size < length bytes
    → fs.i_size < 2 ^ 42
    → fs.i_size / block_size + 3 < n
    → onefile_write (granted bytes) fs ≡ fault overflow
unfolding onefile_write mutex_lock sb_bread
onefile_write-overflow n fs bytes ok large small high =
    let (b, o) = place_large fs.i_size (length bytes) large in
    let home = fs.i_size / block_size + 3 in
    let s : sector home ≡ home = sector_lem home (omega arith) in
    let same : (length bytes == length bytes) ≡ true = ==_refl (length bytes) in
    let good : fs.faulty home ≡ false = ok.readable home high in
    let full : ltb (length (fs.device home)) (0 + length bytes) ≡ true =
      rw (ok.sized home) (ground arith) in
    rw (ok.unlocked, same, b, s, good, o, b, s, full)

-- `fs'` is `fs` with the payload in the block, at the offset and up to the end that `place` gives: the
-- rest of that block and every other block are as they were, and the size is never made smaller.
pub record Written (payload : List ℕ) (fs fs' : Fs) : Type 0 where
  pub at_place :
      slice
        (place fs.i_size (length payload)).offset
        (length payload)
        (fs'.device (sector (place fs.i_size (length payload)).block))
      ≡ payload
  pub before :
      take
        (place fs.i_size (length payload)).offset
        (fs'.device (sector (place fs.i_size (length payload)).block))
      ≡ take
          (place fs.i_size (length payload)).offset
          (fs.device (sector (place fs.i_size (length payload)).block))
  pub behind :
      drop
        ((place fs.i_size (length payload)).offset + length payload)
        (fs'.device (sector (place fs.i_size (length payload)).block))
      ≡ drop
          ((place fs.i_size (length payload)).offset + length payload)
          (fs.device (sector (place fs.i_size (length payload)).block))
  pub others :
      (c : ℕ)
      → (c == sector (place fs.i_size (length payload)).block) ≡ false
      → fs'.device c ≡ fs.device c
  pub size : fs'.i_size ≡ (
      if ltb fs.i_size ((place fs.i_size (length payload)).start + length payload)
      then (place fs.i_size (length payload)).start + length payload
      else fs.i_size)
  pub unlocked : fs'.locked ≡ false

-- The payload was taken, stands in its block, and the mutex is free; or the file system is as it was,
-- with 0 or -EIO; or the payload went past the end of a buffer.
abbrev pub AllOrNothing : WriteEnv → Fs → Run Fs ℤ → Type 0
AllOrNothing e fs (done r fs') =
    ((r ≡ pos (length e.payload))
      × (e.buffer ≡ true)
      × (e.copied ≡ length e.payload)
      × Written e.payload fs fs')
    ⊎ (((r ≡ pos 0) ⊎ (r ≡ eio)) × (fs' ≡ fs))
AllOrNothing e fs (fault f) = f ≡ overflow

Spliced : (payload : List ℕ) → Fs → (size : ℕ) → Fs
Spliced payload fs size =
    let p = place fs.i_size (length payload) in
    record {
      device = λ c.
          if c == sector p.block
          then splice p.offset payload (fs.device (sector p.block))
          else fs.device c;
      faulty = fs.faulty;
      i_size = size;
      locked = false;
    }

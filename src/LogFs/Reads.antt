-- ===== src/LogFs/Reads.antt =====
-- What a read gives on a device whose first `n` blocks can be read.
use reference_monitor.Base.{
  arith, false, leb, length, ltb, ℕ, ◌%◌, ◌+◌, ◌-◌, ◌/◌, ◌<◌, ◌^◌, ◌≡◌, ◌≤◌,
}
use reference_monitor.Base.Int.{pos}
use reference_monitor.LogFs.{
  Fs, block_size, copy_out, mutex_lock, mutex_unlock, onefilefs_read, sb_bread, sector,
  within_block, within_file,
}
use reference_monitor.LogFs.Slices.{slice}
use reference_monitor.Run.{done}

-- `n` blocks can be read, every block has its size, and nobody holds the mutex.
pub record Ready (n : ℕ) (fs : Fs) : Type 0 where
  pub readable : (b : ℕ) → b < n → fs.faulty b ≡ false
  pub sized : (b : ℕ) → length (fs.device b) ≡ block_size
  pub unlocked : fs.locked ≡ false

pub sector_lem : (b : ℕ) → b < 2 ^ 31 → sector b ≡ b
unfolding sector
sector_lem b lt = let e : b % 2 ^ 32 ≡ b = omega arith in rw e (ground arith)

-- The bytes that a read of `len` bytes at `off` is about, for a file of `file_size` bytes.
abbrev pub clipped : (file_size len off : ℕ) → ℕ
clipped file_size len off = within_block (off % block_size) (within_file file_size off len)

within_file_lem :
    (file_size off len : ℕ)
    → off < file_size
    → off + len < 2 ^ 64
    → (within_file file_size off len ≤ len) × (off + within_file file_size off len ≤ file_size)
unfolding within_file
within_file_lem file_size off len lt le =
    let e : (off + len) % 2 ^ 64 ≡ off + len = omega arith in rw e (ground arith)

within_block_lem :
    (o len : ℕ)
    → o < block_size
    → o + len < 2 ^ 64
    → (within_block o len ≤ len) × (o + within_block o len ≤ block_size)
unfolding within_block
within_block_lem o len lt le =
    let e : (o + len) % 2 ^ 64 ≡ o + len = omega arith in rw e (ground arith)

pub clipped_lem :
    (file_size len off : ℕ)
    → file_size < 2 ^ 42
    → off < file_size
    → off + len < 2 ^ 64
    → (clipped file_size len off ≤ len)
      × (off + clipped file_size len off ≤ file_size)
      × (off % block_size + clipped file_size len off ≤ block_size)
clipped_lem file_size len off small lt le =
    let (a, b) = within_file_lem file_size off len lt le in
    let (c, d) =
      within_block_lem (off % block_size) (within_file file_size off len) (omega arith)
        (omega arith) in
    (omega arith, omega arith, d)

-- A read that stays in the file and in one block is not clipped.
pub clipped_whole :
    (file_size len off : ℕ)
    → file_size < 2 ^ 42
    → off + len ≤ file_size
    → off % block_size + len ≤ block_size
    → clipped file_size len off ≡ len
unfolding within_block within_file
clipped_whole file_size len off small le le' =
    let a : (off + len) % 2 ^ 64 ≡ off + len = omega arith in
    let b : (off % block_size + len) % 2 ^ 64 ≡ off % block_size + len = omega arith in
    let c : ltb file_size (off + len) ≡ false = ground arith in
    let d : ltb block_size (off % block_size + len) ≡ false = ground arith in rw (a, c, b, d)

-- Where the read stays in the file, its clipping does not depend on the size.
pub clipped_same :
    (s s' len off : ℕ)
    → off + len ≤ s
    → off + len ≤ s'
    → s < 2 ^ 42
    → clipped s' len off ≡ clipped s len off
unfolding within_file
clipped_same s s' len off le le' small =
    let a : (off + len) % 2 ^ 64 ≡ off + len = omega arith in
    let b : ltb s (off + len) ≡ false = ground arith in
    let c : ltb s' (off + len) ≡ false = ground arith in rw (a, b, c)

module _ (n : ℕ) (fs : Fs) (ok : Ready n fs) (small : fs.i_size < 2 ^ 42) where
  pub onefilefs_read_lem :
      (left len off : ℕ)
      → off < fs.i_size
      → off + len < 2 ^ 64
      → off / block_size + 2 < n
      → onefilefs_read left len off fs
        ≡ done
            (record {
              count = pos (clipped fs.i_size len off - left);
              off = off + (clipped fs.i_size len off - left);
              bytes =
                  slice
                    (off % block_size)
                    (clipped fs.i_size len off - left)
                    (fs.device (off / block_size + 2));
            })
            fs
  unfolding onefilefs_read mutex_lock mutex_unlock sb_bread copy_out
  onefilefs_read_lem left len off lt le b =
      let (h, h', h'') = clipped_lem fs.i_size len off small lt le in
      let inside : leb fs.i_size off ≡ false = ground arith in
      let s : sector (off / block_size + 2) ≡ off / block_size + 2 =
        sector_lem (off / block_size + 2) (omega arith) in
      let good : fs.faulty (off / block_size + 2) ≡ false = ok.readable (off / block_size + 2) b in
      let room : ltb (length (fs.device (off / block_size + 2)))
            (off % block_size + clipped fs.i_size len off)
          ≡ false =
        rw (ok.sized (off / block_size + 2)) (ground arith) in
      rw (ok.unlocked, inside, s, good, room)

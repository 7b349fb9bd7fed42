-- ===== src/LogFs/History.antt =====
-- Reads after writes: what is in the file stays, and what was written can be read back.
use reference_monitor.Base.{
  ==_iff, Bool-cases, List, Option, ap, arith, inl, inr, length, none, some, ℕ, ◌%◌, ◌+◌, ◌-◌, ◌/◌,
  ◌<◌, ◌==◌, ◌^◌, ◌∙◌, ◌≡◌, ◌≤◌,
}
use reference_monitor.Base.Int.{pos}
use reference_monitor.LogFs.{Fs, ReadResult, block_size, onefilefs_read}
use reference_monitor.LogFs.Append.{Wrote}
use reference_monitor.LogFs.Reads.{
  Ready, clipped, clipped_lem, clipped_same, clipped_whole, onefilefs_read_lem,
}
use reference_monitor.LogFs.Slices.{slice, slice-splice, slice_before}
use reference_monitor.Run.{Run, done, fault}

-- What the caller of a run gets, `none` after a fault.
abbrev pub answer : {S A : Type 0} → Run S A → Option A
answer (done a s) = some a
answer (fault f) = none

-- All the bytes of `bytes`, read at `off`.
abbrev pub all_of : List ℕ → ℕ → ReadResult
all_of bytes off = record { count = pos (length bytes); off = off + length bytes; bytes = bytes }

module _ (n : ℕ) (fs : Fs) (ok : Ready n fs) (bytes : List ℕ) (start : ℕ) (fs' : Fs)
    (w : Wrote n fs bytes start fs') (small : fs'.i_size < 2 ^ 42)
    (high : start / block_size + 2 < n)
    (fits : start % block_size + length bytes ≤ block_size) where
  pub read_back :
      0 < length bytes
      → answer (onefilefs_read 0 (length bytes) start fs') ≡ some (all_of bytes start)
  read_back some_byte =
      let home = start / block_size + 2 in
      let grown : start + length bytes ≤ fs'.i_size = omega (arith, w.new_size) in
      let all : length bytes - 0 ≡ length bytes = omega arith in
      let whole = clipped_whole fs'.i_size (length bytes) start small grown fits in
      let stored : slice (start % block_size) (length bytes) (fs'.device home) ≡ bytes =
        rw w.target
          (slice-splice (start % block_size) bytes (fs.device home) (rw (ok.sized home) fits)) in
      ap answer (
        onefilefs_read_lem n fs' w.ready small 0 (length bytes) start (omega arith) (omega arith)
          high)
      ∙ rw (whole, all, stored)

  same_slice :
      (off len : ℕ)
      → off + len ≤ start
      → off % block_size + len ≤ block_size
      → slice (off % block_size) len (fs'.device (off / block_size + 2))
        ≡ slice (off % block_size) len (fs.device (off / block_size + 2))
  same_slice off len le le' =
      elim (Bool-cases ((off / block_size + 2) == (start / block_size + 2))) [
        | inl q ↦
            let e = (==_iff (off / block_size + 2) (start / block_size + 2)).0 q in
            rw (e, w.target)
              (slice_before (start % block_size) bytes (fs.device (start / block_size + 2))
                (rw (ok.sized (start / block_size + 2)) fits) (off % block_size) len (omega arith))
        | inr q ↦ rw (w.elsewhere (off / block_size + 2) (λ e. ground arith))
      ]

  pub read_same :
      (left len off : ℕ)
      → fs.i_size ≤ start
      → off < fs.i_size
      → off + len ≤ fs.i_size
      → answer (onefilefs_read left len off fs') ≡ answer (onefilefs_read left len off fs)
  read_same left len off up lt le =
      let inside : off + len ≤ fs'.i_size = omega (arith, w.new_size) in
      let e = clipped_same fs.i_size fs'.i_size len off le inside (omega arith) in
      let (c, d, f) = clipped_lem fs.i_size len off (omega arith) lt (omega arith) in
      ap answer (
        onefilefs_read_lem n fs' w.ready small left len off (omega arith) (omega arith)
          (omega arith))
      ∙ rw (
        e,
        same_slice off (clipped fs.i_size len off - left) (omega arith) (omega arith),
        onefilefs_read_lem n fs ok (omega arith) left len off lt (omega arith) (omega arith),
      )

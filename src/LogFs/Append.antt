-- ===== src/LogFs/Append.antt =====
-- What `onefile_write` does to the device and to the size, when the kernel grants what it needs.
use reference_monitor.Base.{
  ==_iff, ==_refl, Bool-cases, List, arith, false, if◌then◌else◌, inl, inr, length, ltb, ltb→le,
  ltb→lt, refl, true, ℕ, ◌%◌, ◌+◌, ◌-◌, ◌/◌, ◌<◌, ◌==◌, ◌^◌, ◌≡◌, ◌≢◌, ◌≤◌,
}
use reference_monitor.Base.Int.{pos}
use reference_monitor.LogFs.{
  Fs, WriteEnv, block_size, grow_to, leave, mutex_lock, mutex_unlock, onefile_write, place,
  sb_bread, sector, splice,
}
use reference_monitor.LogFs.Reads.{Ready, sector_lem}
use reference_monitor.LogFs.Slices.{length-splice}
use reference_monitor.Monitor.Chain.{start}
use reference_monitor.Run.{Returns}

pub place_lem :
    (s k : ℕ)
    → k ≤ block_size
    → (s ≤ (place s k).start)
      × ((place s k).start ≤ s + k)
      × ((place s k).block ≡ (place s k).start / block_size + 2)
      × ((place s k).offset ≡ (place s k).start % block_size)
      × ((place s k).start % block_size + k ≤ block_size)
unfolding place
place_lem s k le = elim (Bool-cases (ltb (block_size - s % block_size) k)) [
  | inl e ↦
      let lt = ltb→lt (block_size - s % block_size) k e in
      rw e (omega arith, omega arith, omega arith, omega arith, omega arith)
  | inr e ↦
      let ge = ltb→le (block_size - s % block_size) k e in
      rw e (omega arith, omega arith, refl, refl, omega arith)
]

abbrev pub granted : List ℕ → WriteEnv
granted bytes = record { buffer = true; copied = length bytes; payload = bytes }

-- The file system after the bytes went to position `start`.
pub record Wrote (n : ℕ) (fs : Fs) (bytes : List ℕ) (start : ℕ) (fs' : Fs) : Type 0 where
  pub ready : Ready n fs'
  pub target :
      fs'.device (start / block_size + 2)
      ≡ splice (start % block_size) bytes (fs.device (start / block_size + 2))
  pub elsewhere : (b : ℕ) → b ≢ start / block_size + 2 → fs'.device b ≡ fs.device b
  pub new_size : fs'.i_size ≡ start + length bytes

-- The blocks before the data blocks are as before.
abbrev pub SameHead : Fs → Fs → Type 0
SameHead fs fs' = (fs'.device 0 ≡ fs.device 0) × (fs'.device 1 ≡ fs.device 1)

pub Wrote-SameHead :
    (n : ℕ) (fs : Fs) (bytes : List ℕ) (start : ℕ) (fs' : Fs)
    → Wrote n fs bytes start fs'
    → SameHead fs fs'
Wrote-SameHead n fs bytes start fs' w =
    (w.elsewhere 0 (λ e. omega arith), w.elsewhere 1 (λ e. omega arith))

-- The state that the writes of `onefile_write` lead to.
abbrev patched : Fs → List ℕ → (start final : ℕ) → Fs
patched fs bytes start final = record {
  device = λ c.
      if c == start / block_size + 2
      then splice (start % block_size) bytes (fs.device (start / block_size + 2))
      else fs.device c;
  faulty = fs.faulty;
  i_size = final;
  locked = false;
}

patched_lem :
    (n : ℕ) (fs : Fs) (ok : Ready n fs) (bytes : List ℕ) (start : ℕ)
    → start % block_size + length bytes ≤ block_size
    → (final : ℕ) → final ≡ start + length bytes
    → Wrote n fs bytes start (patched fs bytes start final)
patched_lem n fs ok bytes start le final e =
    let home = start / block_size + 2 in
    record {
      ready = record {
        readable = ok.readable;
        sized = λ c. elim (Bool-cases (c == home)) [
          | inl q ↦
              rw
                (
                  q,
                  length-splice (start % block_size) bytes (fs.device home) (rw (ok.sized home) le),
                )
                (ok.sized home)
          | inr q ↦ rw q (ok.sized c)
        ];
        unlocked = refl;
      };
      target = rw (==_refl home);
      elsewhere = λ c ne. elim (Bool-cases (c == home)) [
        | inl q ↦ absurd (ne ((==_iff c home).0 q))
        | inr q ↦ rw q
      ];
      new_size = e;
    }

module _ (n : ℕ) (fs : Fs) (ok : Ready n fs) (small : fs.i_size < 2 ^ 42) (bytes : List ℕ)
    (le : length bytes ≤ block_size) where
  pub onefile_write_lem :
      fs.i_size / block_size + 3 < n
      → Returns
          (λ r fs'.
            (r ≡ pos (length bytes)) × Wrote n fs bytes (place fs.i_size (length bytes)).start fs')
          (onefile_write (granted bytes) fs)
  unfolding onefile_write mutex_lock mutex_unlock sb_bread grow_to leave
  onefile_write_lem lt =
      let (h, h', b, o, r) = place_lem fs.i_size (length bytes) le in
      let start = (place fs.i_size (length bytes)).start in
      let same : (length bytes == length bytes) ≡ true = ==_refl (length bytes) in
      let s : sector (start / block_size + 2) ≡ start / block_size + 2 =
        sector_lem (start / block_size + 2) (omega arith) in
      let good : fs.faulty (start / block_size + 2) ≡ false =
        ok.readable (start / block_size + 2) (omega arith) in
      let room : ltb (length (fs.device (start / block_size + 2)))
            (start % block_size + length bytes)
          ≡ false =
        rw (ok.sized (start / block_size + 2)) (ground arith) in
      let free : Fs = record fs { locked = false } in
      let free_ok : Ready n free = record {
        readable = ok.readable;
        sized = ok.sized;
        unlocked = refl;
      } in
      rw (ok.unlocked, same, b, s, good, o, b, s, room)
        (elim (Bool-cases (ltb fs.i_size (start + length bytes))) [
          | inl q ↦
              rw q (refl, patched_lem n free free_ok bytes start r (start + length bytes) refl)
          | inr q ↦ rw q (refl, patched_lem n free free_ok bytes start r fs.i_size (ground arith))
        ])

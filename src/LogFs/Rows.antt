-- ===== src/LogFs/Rows.antt =====
-- The file as a log: rows are appended and never lost.
use reference_monitor.Base.{
  All, List, [], arith, length, refl, some, ℕ, ◌+◌, ◌/◌, ◌<◌, ◌^◌, ◌∙◌, ◌∷◌, ◌≡◌, ◌≤◌,
}
use reference_monitor.Base.Int.{pos}
use reference_monitor.LogFs.{Fs, block_size, onefile_write, onefilefs_read, place}
use reference_monitor.LogFs.Append.{
  SameHead, Wrote, granted, onefile_write_lem, place_lem, Wrote-SameHead,
}
use reference_monitor.LogFs.History.{all_of, answer, read_back, read_same}
use reference_monitor.LogFs.Reads.{Ready}
use reference_monitor.Run.{Cmd, Returns, Returns-bind, Returns-mono, pure, ◌>>◌}

-- Every read of bytes that the file already had gives what it gave.
abbrev pub Same : Fs → Fs → Type 0
Same fs fs' =
    (left len off : ℕ)
    → off < fs.i_size
    → off + len ≤ fs.i_size
    → answer (onefilefs_read left len off fs') ≡ answer (onefilefs_read left len off fs)

-- The row stands in the file, and one read gives all of it.
abbrev pub Kept : Fs → List ℕ → Type 0
Kept fs row =
    (off : ℕ) × (off + length row ≤ fs.i_size)
    × (answer (onefilefs_read 0 (length row) off fs) ≡ some (all_of row off))

abbrev pub IsRow : List ℕ → Type 0
IsRow row = (0 < length row) × (length row ≤ block_size)

pub record Appended (n : ℕ) (fs : Fs) (row : List ℕ) (fs' : Fs) : Type 0 where
  pub ready : Ready n fs'
  pub larger : fs.i_size ≤ fs'.i_size
  pub bounded : fs'.i_size ≤ fs.i_size + (length row + length row)
  pub head : SameHead fs fs'
  pub same : Same fs fs'
  pub kept : Kept fs' row

-- On a device with room, `onefile_write` of 1 to 4096 bytes for which the kernel grants memory and
-- copy returns their number. The file grows, by at most twice that number; a read within the old size
-- gives what it gave before; and there is a position at which a read of that many bytes gives them all.
pub onefile_write-Appended :
    (n : ℕ) (fs : Fs) (row : List ℕ)
    → Ready n fs
    → IsRow row
    → fs.i_size + (length row + length row) < 2 ^ 42
    → fs.i_size / block_size + 3 < n
    → Returns
        (λ r fs'. (r ≡ pos (length row)) × Appended n fs row fs')
        (onefile_write (granted row) fs)
onefile_write-Appended n fs row ok (some_byte, le) room high =
    let (up, low, b, o, fits) = place_lem fs.i_size (length row) le in
    let start = (place fs.i_size (length row)).start in
    Returns-mono (λ r fs'. (r ≡ pos (length row)) × Wrote n fs row start fs')
      (λ r fs'. (r ≡ pos (length row)) × Appended n fs row fs') (onefile_write (granted row) fs)
      (onefile_write_lem n fs ok (omega arith) row le high)
      (λ r fs' (e, w).
        let sz = w.new_size in
        let small : fs'.i_size < 2 ^ 42 = omega arith in
        (
          e,
          record {
            ready = w.ready;
            larger = omega arith;
            bounded = omega arith;
            head = Wrote-SameHead n fs row start fs' w;
            same = λ left len off lt in_file.
                read_same n fs ok row start fs' w small (omega arith) fits left len off up lt
                  in_file;
            kept = (
              start,
              omega arith,
              read_back n fs ok row start fs' w small (omega arith) fits some_byte,
            );
          },
        ))

-- One write for each row, in order.
unfoldable pub append_rows : List (List ℕ) → Cmd Fs (Unit {0})
append_rows [] = pure tt
append_rows (row ∷ rows) = do onefile_write (granted row); append_rows rows

abbrev pub total : List (List ℕ) → ℕ
total [] = 0
total (row ∷ rows) = (length row + length row) + total rows

pub record Logged (n : ℕ) (fs : Fs) (rows : List (List ℕ)) (fs' : Fs) : Type 0 where
  pub ready : Ready n fs'
  pub larger : fs.i_size ≤ fs'.i_size
  pub head : SameHead fs fs'
  pub same : Same fs fs'
  pub kept : All (Kept fs') rows

pub Kept-later :
    (fs fs' : Fs) (row : List ℕ)
    → 0 < length row
    → fs.i_size ≤ fs'.i_size
    → Same fs fs'
    → Kept fs row
    → Kept fs' row
Kept-later fs fs' row some_byte le same (off, inside, e) =
    (off, omega arith, same 0 (length row) off (omega arith) inside ∙ e)

-- On a device with room, rows of 1 to 4096 bytes are written one after the other, with memory and copy
-- granted. Then the writes come back; what the file had before reads as before; and each of the rows
-- stands in the file at a place where one read gives all of it.
pub append_rows-Logged :
    (n : ℕ) (fs : Fs) (rows : List (List ℕ))
    → Ready n fs
    → All IsRow rows
    → fs.i_size + total rows < 2 ^ 42
    → (fs.i_size + total rows) / block_size + 3 < n
    → Returns (λ _ fs'. Logged n fs rows fs') (append_rows rows fs)
unfolding append_rows
append_rows-Logged n fs [] ok are room high = record {
  ready = ok;
  larger = omega arith;
  head = (refl, refl);
  same = λ left len off lt le. refl;
  kept = tt;
}
append_rows-Logged n fs (row ∷ rows) ok are room high =
    Returns-bind (λ r fs'. (r ≡ pos (length row)) × Appended n fs row fs')
      (λ _ fs'. Logged n fs (row ∷ rows) fs') (onefile_write (granted row) fs)
      (λ _. append_rows rows) (onefile_write-Appended n fs row ok are.0 (omega arith) (omega arith))
      (λ r fs1 (e, a).
        let small : fs1.i_size + total rows ≤ fs.i_size + total (row ∷ rows) =
          omega (arith, a.bounded) in
        Returns-mono (λ _ fs'. Logged n fs1 rows fs') (λ _ fs'. Logged n fs (row ∷ rows) fs')
          (append_rows rows fs1)
          (append_rows-Logged n fs1 rows a.ready are.1 (omega arith) (omega arith))
          (λ _ fs' l.
            let le = a.larger in
            let le' = l.larger in
            record {
              ready = l.ready;
              larger = omega arith;
              head = (l.head.0 ∙ a.head.0, l.head.1 ∙ a.head.1);
              same = λ left len off lt in_file.
                  l.same left len off (omega arith) (omega arith) ∙ a.same left len off lt in_file;
              kept = (Kept-later fs1 fs' row are.0.0 l.larger l.same a.kept, l.kept);
            }))

-- ===== src/LogFs/FirstMount.antt =====
-- A device that the program made is mounted, its file is found, and its first line is read.
use reference_monitor.Base.{
  Bool, List, [], ap, append-nil, append_assoc, arith, false, false≢true, if◌then◌else◌, length,
  none, not, refl, some, subst, sym, take, true, ℕ, ◌++◌, ◌<◌, ◌==◌, ◌∙◌, ◌≡◌,
}
use reference_monitor.Base.Int.{pos}
use reference_monitor.CString.{str_eq_refl}
use reference_monitor.LogFs.{Fs, onefilefs_read, sb_bread}
use reference_monitor.LogFs.Format.{
  Sizes, length-file_inode, length-overlay, length-super_block, made, made_line, made-magic,
  made_size, overlay, take-length,
}
use reference_monitor.LogFs.History.{all_of, answer}
use reference_monitor.LogFs.MakeFs.{MakeEnv, file_body, file_inode, main, put, super_block}
use reference_monitor.LogFs.Mount.{
  Super, bound, fresh, magic, onefilefs_lookup, singlefilefs_fill_super, unique_file_name,
}
use reference_monitor.LogFs.Reads.{Ready, clipped_whole, onefilefs_read_lem}
use reference_monitor.Run.{Cmd, Returns, done}

-- `main` has its argument and the device, and every `write` takes all its bytes.
pub record Complete (e : MakeEnv) : Type 0 where
  pub argc : e.argc ≡ 2
  pub opened : e.opened ≡ true
  pub first : e.taken 0 ≡ some 4096
  pub second : e.taken 1 ≡ some 32
  pub third : e.taken 2 ≡ some 4064
  pub fourth : e.taken 3 ≡ some 58

take_all : (n : ℕ) (xs : List ℕ) → length xs ≡ n → take n xs ≡ xs
take_all n xs e = subst (λ ys. take n ys ≡ xs) (append-nil xs) (take-length n xs [] e)

put_lem :
    (e : MakeEnv) (i k : ℕ) (bytes written : List ℕ)
    → e.taken i ≡ some k
    → length bytes ≡ k
    → put e i bytes written ≡ done (pos k) (written ++ bytes)
unfolding put
put_lem e i k bytes written t le = rw (t, put, take_all k bytes le)

in_else :
    {S A : Type 0} (b : Bool) (x y : Cmd S A) (s : S) → b ≡ false → (if b then x else y) s ≡ y s
in_else true x y s e = absurd (false≢true (sym e))
in_else false x y s e = refl

main_lem : (e : MakeEnv) → Sizes e → Complete e → main e [] ≡ done (pos 0) (made e)
unfolding main made
main_lem e z c =
    let one = super_block e in
    let two = one ++ file_inode e in
    in_else (not (e.argc == 2)) _ _ [] (rw c.argc refl)
    ∙ in_else (not e.opened) _ _ [] (rw c.opened refl)
    ∙ rw
        (
          put_lem e 0 4096 one [] c.first (length-super_block e z),
          put_lem e 1 32 (file_inode e) one c.second (length-file_inode e z),
          put_lem e 2 4064 e.padding two c.third z.padding,
          put_lem e 3 58 file_body (two ++ e.padding) c.fourth refl,
        )
        (ap (done (pos 0)) (
          append_assoc two e.padding file_body
          ∙ append_assoc one (file_inode e) (e.padding ++ file_body)))

abbrev pub on_device : Fs → List ℕ → Fs
on_device fs written = record fs { device = overlay written fs.device }

abbrev mounting : Fs → Super
mounting fs = record { fs = fs; s_magic = 0; s_root = none }

-- The mount accepts the device and makes the root, and the lookup finds the file, whose first read
-- gives the line with the names of the columns.
abbrev pub Mounts : Fs → Type 0
Mounts fs =
    (singlefilefs_fill_super (record { root_inode = true; root_dentry = true }) (mounting fs)
      ≡ done (pos 0) (record { fs = fs; s_magic = magic; s_root = some 10 }))
    × Returns
        (λ f fs'. (f ≡ bound) × (answer (onefilefs_read 0 58 0 fs') ≡ some (all_of file_body 0)))
        (onefilefs_lookup fresh unique_file_name fs)

module _ (e : MakeEnv) (z : Sizes e) (n : ℕ) (fs : Fs) (ok : Ready n fs) (three : 2 < n) where
  device_Ready : Ready n (on_device fs (made e))
  device_Ready = record {
    readable = ok.readable;
    sized = λ b. length-overlay (made e) fs.device b (ok.sized b);
    unlocked = ok.unlocked;
  }

  made-Mounts : Mounts (on_device fs (made e))
  unfolding singlefilefs_fill_super onefilefs_lookup sb_bread
  made-Mounts =
      let good_0 : fs.faulty 0 ≡ false = ok.readable 0 (omega arith) in
      let good_1 : fs.faulty 1 ≡ false = ok.readable 1 (omega arith) in
      let found : Fs = record (on_device fs (made e)) { i_size = 58 } in
      let found_Ready : Ready n found = record {
        readable = ok.readable;
        sized = device_Ready.sized;
        unlocked = ok.unlocked;
      } in
      let whole = clipped_whole 58 58 0 (omega arith) (omega arith) (omega arith) in
      let first_read : answer (onefilefs_read 0 58 0 found) ≡ some (all_of file_body 0) =
        ap answer (
          onefilefs_read_lem n found found_Ready (omega arith) 0 58 0 (omega arith) (omega arith)
            three)
        ∙ rw (whole, made_line e z fs.device) refl in
      let name = str_eq_refl unique_file_name in
      (
        rw (good_0, made-magic e z fs.device) refl,
        rw (name, good_1, made_size e z fs.device) (refl, first_read),
      )

-- The program gets a device, every `write` takes all its bytes, and what is not set in memory has the
-- sizes of its places. Then `main` returns 0, whatever is in that memory and was on the device, whose
-- first three blocks can be read: the mount accepts it and makes the root, the lookup finds the file,
-- and the first read of 58 bytes gives the line with the names of the columns.
pub main-Mounts :
    (e : MakeEnv) (n : ℕ) (fs : Fs)
    → Sizes e
    → Complete e
    → Ready n fs
    → 2 < n
    → Returns (λ r written. (r ≡ pos 0) × Mounts (on_device fs written)) (main e [])
main-Mounts e n fs z c ok three =
    subst (Returns (λ r written. (r ≡ pos 0) × Mounts (on_device fs written)))
      (sym (main_lem e z c)) (refl, made-Mounts e z n fs ok three)

-- ===== src/LogFs/Format.antt =====
-- From the program that makes the file system to the first read.
use reference_monitor.Base.{
  List, [], ap, append_assoc, arith, drop, length, length-append, refl, subst, suc, sym, take, zero,
  ℕ, ◌*◌, ◌++◌, ◌+◌, ◌∙◌, ◌∷◌, ◌≡◌, ◌≤◌,
}
use reference_monitor.LogFs.{block_size}
use reference_monitor.LogFs.MakeFs.{MakeEnv, bytes_of, file_body, file_inode, super_block}
use reference_monitor.LogFs.Mount.{little, magic, uint64_at}
use reference_monitor.LogFs.Slices.{length-drop, slice, take-append}

-- The memory that is not set has the sizes of its places.
pub record Sizes (e : MakeEnv) : Type 0 where
  pub super_rest : length e.super_rest ≡ 4072
  pub gap : length e.gap ≡ 4
  pub data_block : length e.data_block ≡ 8
  pub padding : length e.padding ≡ 4064

-- The device after its first bytes were overwritten
unfoldable pub overlay : (written : List ℕ) → (old : ℕ → List ℕ) → ℕ → List ℕ
overlay written old b =
    let part = slice (b * block_size) block_size written in part ++ drop (length part) (old b)

unfoldable pub made : MakeEnv → List ℕ
made e = super_block e ++ (file_inode e ++ (e.padding ++ file_body))

module _ {ℓ} {A : Type ℓ} where
  pub take-length : (n : ℕ) (xs ys : List A) → length xs ≡ n → take n (xs ++ ys) ≡ xs
  take-length n xs ys e = subst (λ k. take k (xs ++ ys) ≡ xs) e (take-append xs ys)

  length-take_le : (n : ℕ) (xs : List A) → length (take n xs) ≤ n
  length-take_le zero xs = omega arith
  length-take_le (suc n) [] = omega arith
  length-take_le (suc n) (x ∷ xs) = omega (arith, length-take_le n xs)

  drop-length : (n : ℕ) (xs ys : List A) → length xs ≡ n → drop n (xs ++ ys) ≡ ys
  drop-length zero [] ys e = refl
  drop-length zero (x ∷ xs) ys e = absurd (omega arith)
  drop-length (suc n) [] ys e = absurd (omega arith)
  drop-length (suc n) (x ∷ xs) ys e = drop-length n xs ys (omega arith)

  drop_more :
      (m n k : ℕ) (xs ys : List A) → length xs ≡ n → m ≡ n + k → drop m (xs ++ ys) ≡ drop k ys
  drop_more m zero k [] ys e s = ap (λ i. drop i ys) (omega arith)
  drop_more m zero k (x ∷ xs) ys e s = absurd (omega arith)
  drop_more m (suc n) k [] ys e s = absurd (omega arith)
  drop_more zero (suc n) k (x ∷ xs) ys e s = absurd (omega arith)
  drop_more (suc m) (suc n) k (x ∷ xs) ys e s = drop_more m n k xs ys (omega arith) (omega arith)

module _ (e : MakeEnv) (z : Sizes e) where
  pub length-super_block : length (super_block e) ≡ 4096
  unfolding super_block bytes_of
  length-super_block = omega (arith, z.super_rest)

  pub block_0 : take 4096 (made e) ≡ super_block e
  unfolding made
  block_0 =
      take-length 4096 (super_block e) (file_inode e ++ (e.padding ++ file_body)) length-super_block

  pub magic_read : (rest : List ℕ) → uint64_at 8 (super_block e ++ rest) ≡ magic
  unfolding uint64_at super_block bytes_of
  magic_read rest = refl

  pub size_read : (rest : List ℕ) → uint64_at 24 (file_inode e ++ rest) ≡ 58
  unfolding uint64_at file_inode bytes_of
  size_read rest =
      let size_field : List ℕ = bytes_of 8 (length file_body) in
      let behind : List ℕ = bytes_of 8 1 ++ (e.data_block ++ size_field) in
      let a : drop 20 ((e.gap ++ behind) ++ rest) ≡ drop 16 (behind ++ rest) =
        rw (append_assoc e.gap behind rest) (drop_more 20 4 16 e.gap (behind ++ rest) z.gap refl) in
      let b : drop 8 ((e.data_block ++ size_field) ++ rest) ≡ size_field ++ rest =
        rw (append_assoc e.data_block size_field rest)
          (drop-length 8 e.data_block (size_field ++ rest) z.data_block) in
      ap (little 8) (a ∙ b)

  pub length-file_inode : length (file_inode e) ≡ 32
  unfolding file_inode bytes_of
  length-file_inode =
      let size_field : List ℕ = bytes_of 8 (length file_body) in
      omega (
        arith,
        length-append e.gap (bytes_of 8 1 ++ (e.data_block ++ size_field)),
        length-append e.data_block size_field,
        z.gap,
        z.data_block,
      )

  pub block_1 : slice 4096 4096 (made e) ≡ file_inode e ++ e.padding
  unfolding made
  block_1 =
      rw
        (drop-length 4096 (super_block e) (file_inode e ++ (e.padding ++ file_body))
          length-super_block)
        (rw (sym (append_assoc (file_inode e) e.padding file_body)) (
          take-length 4096 (file_inode e ++ e.padding) file_body
            (omega (arith, length-append (file_inode e) e.padding, length-file_inode, z.padding))))

  pub block_2 : slice 8192 4096 (made e) ≡ file_body
  unfolding made
  block_2 =
      let b : drop 8192 (made e) ≡ file_body =
        drop_more 8192 4096 4096 (super_block e) (file_inode e ++ (e.padding ++ file_body))
          length-super_block refl
        ∙ drop_more 4096 32 4064 (file_inode e) (e.padding ++ file_body) length-file_inode refl
        ∙ drop-length 4064 e.padding file_body z.padding in
      rw b refl

module _ (written : List ℕ) (old : ℕ → List ℕ) where
  overlay_lem :
      (b : ℕ) (part : List ℕ)
      → slice (b * block_size) block_size written ≡ part
      → overlay written old b ≡ part ++ drop (length part) (old b)
  unfolding overlay
  overlay_lem b part e = rw e refl

  pub length-overlay :
      (b : ℕ) → length (old b) ≡ block_size → length (overlay written old b) ≡ block_size
  unfolding overlay
  length-overlay b e =
      let part : List ℕ = slice (b * block_size) block_size written in
      let le : length part ≤ block_size =
        length-take_le block_size (drop (b * block_size) written) in
      omega (
        arith,
        length-append part (drop (length part) (old b)),
        length-drop (length part) (old b),
        e,
      )

module _ (e : MakeEnv) (z : Sizes e) (old : ℕ → List ℕ) where
  pub made-magic : uint64_at 8 (overlay (made e) old 0) ≡ magic
  made-magic =
      ap (uint64_at 8) (overlay_lem (made e) old 0 (super_block e) (block_0 e z))
      ∙ magic_read e z (drop (length (super_block e)) (old 0))

  pub made_size : uint64_at 24 (overlay (made e) old 1) ≡ 58
  made_size =
      let part : List ℕ = file_inode e ++ e.padding in
      let rest : List ℕ = drop (length part) (old 1) in
      ap (uint64_at 24)
        (overlay_lem (made e) old 1 part (block_1 e z) ∙ append_assoc (file_inode e) e.padding rest)
      ∙ size_read e z (e.padding ++ rest)

  pub made_line : slice 0 58 (overlay (made e) old 2) ≡ file_body
  made_line =
      ap (slice 0 58) (overlay_lem (made e) old 2 file_body (block_2 e z))
      ∙ take_append_body (drop (length file_body) (old 2))
    where
      take_append_body : (rest : List ℕ) → slice 0 58 (file_body ++ rest) ≡ file_body
      take_append_body rest = refl

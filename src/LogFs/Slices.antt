-- ===== src/LogFs/Slices.antt =====
-- Slices of the blocks that log-filesystem/file.c copies, and the bounds that clip them.
use reference_monitor.Base.{
  List, [], ap, arith, drop, length, length-append, refl, suc, take, zero, ℕ, ◌++◌, ◌+◌, ◌-◌, ◌∙◌,
  ◌∷◌, ◌≡◌, ◌≤◌,
}
use reference_monitor.LogFs.{splice}

-- The `n` elements of `xs` from position `o`.
module _ {ℓ} {A : Type ℓ} where
  abbrev pub slice : (o n : ℕ) → List A → List A
  slice o n xs = take n (drop o xs)

  pub take-append : (xs ys : List A) → take (length xs) (xs ++ ys) ≡ xs
  take-append [] ys = refl
  take-append (x ∷ xs) ys = ap (λ r. x ∷ r) (take-append xs ys)

  pub slice-take :
      (o n k : ℕ) (xs ys : List A)
      → o + n ≤ k
      → k ≤ length xs
      → slice o n (take k xs ++ ys) ≡ slice o n xs
  slice-take zero zero k xs ys le le' = refl
  slice-take zero (suc n) (suc k) (x ∷ xs) ys le le' =
      ap (λ r. x ∷ r) (slice-take zero n k xs ys (omega arith) (omega arith))
  slice-take (suc o) n (suc k) (x ∷ xs) ys le le' =
      slice-take o n k xs ys (omega arith) (omega arith)
  slice-take o n k xs ys le le' = absurd (omega arith)

  pub drop-take : (o : ℕ) (xs ys : List A) → o ≤ length xs → drop o (take o xs ++ ys) ≡ ys
  drop-take zero xs ys le = refl
  drop-take (suc o) [] ys le = absurd (omega arith)
  drop-take (suc o) (x ∷ xs) ys le = drop-take o xs ys (omega arith)

  drop-take_more :
      (o n : ℕ) (xs ys : List A) → o ≤ length xs → drop (o + n) (take o xs ++ ys) ≡ drop n ys
  drop-take_more zero n xs ys le = let none_first : 0 + n ≡ n = omega arith in rw none_first refl
  drop-take_more (suc o) n [] ys le = absurd (omega arith)
  drop-take_more (suc o) n (x ∷ xs) ys le =
      let one_first : suc o + n ≡ suc (o + n) = omega arith in
      rw one_first (drop-take_more o n xs ys (omega arith))

  drop-append : (xs ys : List A) → drop (length xs) (xs ++ ys) ≡ ys
  drop-append [] ys = refl
  drop-append (x ∷ xs) ys = drop-append xs ys

  pub length-take : (n : ℕ) (xs : List A) → n ≤ length xs → length (take n xs) ≡ n
  length-take zero xs le = refl
  length-take (suc n) [] le = absurd (omega arith)
  length-take (suc n) (x ∷ xs) le = ap suc (length-take n xs (omega arith))

  pub length-drop : (n : ℕ) (xs : List A) → length (drop n xs) ≡ length xs - n
  length-drop zero xs = omega arith
  length-drop (suc n) [] = omega arith
  length-drop (suc n) (x ∷ xs) = omega (arith, length-drop n xs)

module _ (o : ℕ) (bytes block : List ℕ) (fits : o + length bytes ≤ length block) where
  pub slice-splice : slice o (length bytes) (splice o bytes block) ≡ bytes
  unfolding splice
  slice-splice =
      rw (drop-take o block (bytes ++ drop (o + length bytes) block) (omega arith))
        (take-append bytes (drop (o + length bytes) block))

  -- The bytes before the spliced ones are the block's own.
  pub slice_before : (o' n : ℕ) → o' + n ≤ o → slice o' n (splice o bytes block) ≡ slice o' n block
  unfolding splice
  slice_before o' n le =
      slice-take o' n o block (bytes ++ drop (o + length bytes) block) le (omega arith)

  pub drop-splice : drop (o + length bytes) (splice o bytes block) ≡ drop (o + length bytes) block
  unfolding splice
  drop-splice =
      drop-take_more o (length bytes) block (bytes ++ drop (o + length bytes) block) (omega arith)
      ∙ drop-append bytes (drop (o + length bytes) block)

  pub length-splice : length (splice o bytes block) ≡ length block
  unfolding splice
  length-splice = omega (
    arith,
    length-append (take o block) (bytes ++ drop (o + length bytes) block),
    length-append bytes (drop (o + length bytes) block),
    length-take o block (omega arith),
    length-drop (o + length bytes) block,
  )

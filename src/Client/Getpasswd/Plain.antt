-- ===== src/Client/Getpasswd/Plain.antt =====
-- What the line editor gives for keys that are no commands to it, and for a key and its deletion.
use reference_monitor.Base.{
  All, List, [], append-nil, arith, false, length, ltb, refl, true, ℕ, ◌++◌, ◌+◌, ◌<◌, ◌==◌, ◌∙◌,
  ◌∷◌, ◌≡◌, ◌≤◌,
}
use reference_monitor.Client.Getpasswd.Editor.{delete, edit, rev_append}
use reference_monitor.Client.Getpasswd.Line.{typed}

-- Neither the end of the line nor the delete key.
abbrev pub IsPlain : ℕ → Type 0
IsPlain c = ((c == 10) ≡ false) × ((c == 127) ≡ false)

rev_append_twice {ℓ} :
    {A : Type ℓ} (xs ys zs : List A) → rev_append (rev_append xs ys) zs ≡ rev_append ys (xs ++ zs)
unfolding rev_append
rev_append_twice [] ys zs = refl
rev_append_twice (x ∷ xs) ys zs = rev_append_twice xs (x ∷ ys) zs

module _ (limit : ℕ) where
  edit_plain :
      (s text rest : List ℕ)
      → All IsPlain s
      → length text + length s ≤ limit
      → edit limit text (s ++ 10 ∷ rest) ≡ (rev_append s text, rest)
  unfolding edit rev_append
  edit_plain [] text rest p le = refl
  edit_plain (c ∷ s) text rest ((nl, d), p) le =
      let room : ltb (length text) limit ≡ true = ground arith in
      rw (nl, d, room) (edit_plain s (c ∷ text) rest p (omega arith))

  -- A line of plain keys that fits is typed as it is.
  pub typed_plain :
      (s rest : List ℕ) → All IsPlain s → length s ≤ limit → typed limit (s ++ 10 ∷ rest) ≡ s
  unfolding rev_append
  typed_plain s rest p le =
      rw (edit_plain s [] rest p (omega arith)) (rev_append_twice s [] [] ∙ append-nil s)

  pub rest_plain :
      (s rest : List ℕ)
      → All IsPlain s
      → length s ≤ limit
      → (edit limit [] (s ++ 10 ∷ rest)).1 ≡ rest
  rest_plain s rest p le = rw (edit_plain s [] rest p (omega arith)) refl

  -- A plain key that fits and the delete key behind it are as if neither had been typed.
  pub edit_undo :
      (text keys : List ℕ) (c : ℕ)
      → IsPlain c
      → length text < limit
      → edit limit text (c ∷ 127 ∷ keys) ≡ edit limit text keys
  unfolding edit delete
  edit_undo text keys c (nl, d) lt =
      let room : ltb (length text) limit ≡ true = ground arith in rw (nl, d, room) refl

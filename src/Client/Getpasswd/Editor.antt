-- ===== src/Client/Getpasswd/Editor.antt =====
-- What a user means by the keys: a line with a delete key and a bound on its length.
use reference_monitor.Base.{
  Bool-cases, List, [], ap, arith, false, if◌then◌else◌, inl, inr, length, ltb, ltb→le, ltb→lt,
  refl, set, some, subst₂, suc, sym, true, ℕ, ◌+◌, ◌-◌, ◌<◌, ◌==◌, ◌∙◌, ◌∷◌, ◌≡◌, ◌≤◌,
}
use reference_monitor.Client.Getpasswd.{Tty, goes_on, key_loop, store_char}
use reference_monitor.Run.{Run, done}

-- The delete key
unfoldable pub delete : List ℕ → List ℕ
delete [] = []
delete (c ∷ text) = text

-- The typed text, last key first, when the line ends, and the keys behind it. A key that no longer
-- fits ends the line too.
unfoldable pub edit : (limit : ℕ) → (text keys : List ℕ) → List ℕ × List ℕ
unfolding delete
edit limit text [] = (text, [])
edit limit text (c ∷ keys) =
    let deleted = edit limit (delete text) keys in
    let longer = edit limit (c ∷ text) keys in
    if c == 10
    then (text, keys)
    else if c == 127
    then deleted
    else if ltb (length text) limit
    then longer
    else (text, keys)

-- A text that is kept last key first, put in front of what follows it.
unfoldable pub rev_append {ℓ} : {A : Type ℓ} → List A → List A → List A
rev_append [] ys = ys
rev_append (x ∷ xs) ys = rev_append xs (x ∷ ys)

module _ {ℓ} {A : Type ℓ} where
  pub length-rev_append : (xs ys : List A) → length (rev_append xs ys) ≡ length xs + length ys
  unfolding rev_append
  length-rev_append [] ys = omega arith
  length-rev_append (x ∷ xs) ys = omega (arith, length-rev_append xs (x ∷ ys))

  pub set-rev_append :
      (xs ys : List A) (i j : ℕ) (v : A)
      → i ≡ length xs + j
      → set (rev_append xs ys) i v ≡ rev_append xs (set ys j v)
  unfolding rev_append
  set-rev_append [] ys i j v e = ap (λ k. set ys k v) (omega arith)
  set-rev_append (x ∷ xs) ys i j v e = set-rev_append xs (x ∷ ys) i (suc j) v (omega arith)

-- The terminal with `b` in the buffer
abbrev pub typing : Tty → List ℕ → Tty
typing t b = record t { buffer = some b }

-- The loop ends with what `edit` gives: the text is in the buffer, `y` is at its end, and the rest of
-- the keys is left.
abbrev pub Edits : (limit : ℕ) → Tty → List ℕ × List ℕ → Run Tty ℕ → Type 0
Edits limit t p r =
    (y : ℕ) × (ys : List ℕ) × (r
      ≡ done (length p.0) (record t { input = p.1; buffer = some (rev_append p.0 (y ∷ ys)) }))
    × (length p.0 + length ys ≡ limit)

module _ (limit idx : ℕ) (c : ℕ) (keys : List ℕ) (t : Tty) (b : List ℕ) where
  loop_stop :
      goes_on limit idx c ≡ false
      → key_loop limit idx (c ∷ keys) (typing t b)
        ≡ done idx (record t { input = keys; buffer = some b })
  unfolding key_loop
  loop_stop g = rw g

  loop_char :
      goes_on limit idx c ≡ true
      → (c == 127) ≡ false
      → idx < length b
      → key_loop limit idx (c ∷ keys) (typing t b)
        ≡ key_loop limit (idx + 1) keys (typing t (set b idx c))
  unfolding key_loop store_char
  loop_char g d lt = let inside : ltb idx (length b) ≡ true = ground arith in rw (g, d, inside)

  loop_delete :
      goes_on limit idx c ≡ true
      → (c == 127) ≡ true
      → 0 < idx
      → idx ≤ length b
      → key_loop limit idx (c ∷ keys) (typing t b)
        ≡ key_loop limit (idx - 1) keys (typing t (set b (idx - 1) 0))
  unfolding key_loop store_char
  loop_delete g d some_key le =
      let more : (idx == 0) ≡ false = ground arith in
      let inside : ltb (idx - 1) (length b) ≡ true = ground arith in rw (g, d, more, inside)

loop_delete_none :
    (limit c : ℕ) (keys : List ℕ) (t : Tty) (b : List ℕ)
    → goes_on limit 0 c ≡ true
    → (c == 127) ≡ true
    → key_loop limit 0 (c ∷ keys) (typing t b) ≡ key_loop limit 0 keys (typing t b)
unfolding key_loop
loop_delete_none limit c keys t b g d = rw (g, d)

module _ (limit idx c : ℕ) where
  stops_at_newline : (c == 10) ≡ true → goes_on limit idx c ≡ false
  unfolding goes_on
  stops_at_newline nl = ground arith

  goes_on_delete : (c == 127) ≡ true → idx ≤ limit → goes_on limit idx c ≡ true
  unfolding goes_on
  goes_on_delete d le = ground arith

  goes_on_char : (c == 10) ≡ false → idx < limit → goes_on limit idx c ≡ true
  unfolding goes_on
  goes_on_char nl lt = ground arith

  stops_when_full : (c == 127) ≡ false → limit ≤ idx → goes_on limit idx c ≡ false
  unfolding goes_on
  stops_when_full d le = ground arith

module _ (limit : ℕ) (text keys : List ℕ) (c : ℕ) where
  edit_newline : (c == 10) ≡ true → edit limit text (c ∷ keys) ≡ (text, keys)
  unfolding edit
  edit_newline nl = rw nl refl

  edit-delete :
      (c == 10) ≡ false
      → (c == 127) ≡ true
      → edit limit text (c ∷ keys) ≡ edit limit (delete text) keys
  unfolding edit
  edit-delete nl d = rw (nl, d) refl

  edit_char :
      (c == 10) ≡ false
      → (c == 127) ≡ false
      → ltb (length text) limit ≡ true
      → edit limit text (c ∷ keys) ≡ edit limit (c ∷ text) keys
  unfolding edit
  edit_char nl d room = rw (nl, d, room) refl

  edit_full :
      (c == 10) ≡ false
      → (c == 127) ≡ false
      → ltb (length text) limit ≡ false
      → edit limit text (c ∷ keys) ≡ (text, keys)
  unfolding edit
  edit_full nl d full = rw (nl, d, full) refl

module _ (limit : ℕ) (t : Tty) where
  Edits-steps :
      {p p' : List ℕ × List ℕ} {r r' : Run Tty ℕ}
      → p ≡ p'
      → r ≡ r'
      → Edits limit t p' r'
      → Edits limit t p r
  Edits-steps e f h = subst₂ (λ p r. Edits limit t p r) (sym e) (sym f) h

  Edits-stop :
      (text keys : List ℕ) (c y : ℕ) (ys : List ℕ)
      → length text + length ys ≡ limit
      → goes_on limit (length text) c ≡ false
      → Edits limit t
          (text, keys)
          (key_loop limit (length text) (c ∷ keys) (typing t (rev_append text (y ∷ ys))))
  Edits-stop text keys c y ys e stop =
      (y, ys, loop_stop limit (length text) c keys t (rev_append text (y ∷ ys)) stop, e)

  Edits-delete :
      (text keys : List ℕ) (c y : ℕ) (ys : List ℕ)
      → length text + length ys ≡ limit
      → (c == 127) ≡ true
      → ((y : ℕ) (ys : List ℕ)
          → length (delete text) + length ys ≡ limit
          → Edits limit t (edit limit (delete text) keys) (
              key_loop limit
                (length (delete text))
                keys
                (typing t (rev_append (delete text) (y ∷ ys)))))
      → Edits limit t
          (edit limit (delete text) keys)
          (key_loop limit (length text) (c ∷ keys) (typing t (rev_append text (y ∷ ys))))
  unfolding delete edit rev_append
  Edits-delete [] keys c y ys e d next =
      Edits-steps refl
        (loop_delete_none limit c keys t (y ∷ ys) (goes_on_delete limit 0 c d (omega arith)) d)
        (next y ys e)
  Edits-delete (x ∷ text) keys c y ys e d next =
      let b : List ℕ = rev_append text (x ∷ y ∷ ys) in
      let n : length (x ∷ text) - 1 ≡ length text = omega arith in
      let size = length-rev_append text (x ∷ y ∷ ys) in
      Edits-steps refl
        (loop_delete limit (length (x ∷ text)) c keys t b
            (goes_on_delete limit (length (x ∷ text)) c d (omega arith)) d (omega arith)
            (omega (arith, size))
          ∙ rw (n, set-rev_append text (x ∷ y ∷ ys) (length text) 0 0 (omega arith)) refl)
        (next 0 (y ∷ ys) (omega arith))

  Edits-char :
      (text keys : List ℕ) (c y : ℕ) (ys : List ℕ)
      → length text + length ys ≡ limit
      → (c == 10) ≡ false
      → (c == 127) ≡ false
      → length text < limit
      → ((y : ℕ) (ys : List ℕ)
          → length (c ∷ text) + length ys ≡ limit
          → Edits limit t
              (edit limit (c ∷ text) keys)
              (key_loop limit (length (c ∷ text)) keys (typing t (rev_append (c ∷ text) (y ∷ ys)))))
      → Edits limit t
          (edit limit (c ∷ text) keys)
          (key_loop limit (length text) (c ∷ keys) (typing t (rev_append text (y ∷ ys))))
  unfolding rev_append
  Edits-char text keys c y [] e nl d room next = absurd (omega arith)
  Edits-char text keys c y (y' ∷ ys) e nl d room next =
      let b : List ℕ = rev_append text (y ∷ y' ∷ ys) in
      let n : length text + 1 ≡ length (c ∷ text) = omega arith in
      let size = length-rev_append text (y ∷ y' ∷ ys) in
      Edits-steps refl
        (loop_char limit (length text) c keys t b (goes_on_char limit (length text) c nl room) d
            (omega (arith, size))
          ∙ rw (n, set-rev_append text (y ∷ y' ∷ ys) (length text) 0 c (omega arith)) refl)
        (next y' ys (omega arith))

  pub key_loop-Edits :
      (keys text : List ℕ) (y : ℕ) (ys : List ℕ)
      → length text + length ys ≡ limit
      → Edits limit t
          (edit limit text keys)
          (key_loop limit (length text) keys (typing t (rev_append text (y ∷ ys))))
  unfolding edit key_loop
  key_loop-Edits [] text y ys e = (y, ys, refl, e)
  key_loop-Edits (c ∷ keys) text y ys e = elim (Bool-cases (c == 10)) [
    | inl nl ↦
        Edits-steps (edit_newline limit text keys c nl) refl
          (Edits-stop text keys c y ys e (stops_at_newline limit (length text) c nl))
    | inr nl ↦ elim (Bool-cases (c == 127)) [
      | inl d ↦ Edits-steps (edit-delete limit text keys c nl d) refl (
          Edits-delete text keys c y ys e d
            (λ y' ys' e'. key_loop-Edits keys (delete text) y' ys' e'))
      | inr d ↦ elim (Bool-cases (ltb (length text) limit)) [
        | inr full ↦ Edits-steps (edit_full limit text keys c nl d full) refl (
            Edits-stop text keys c y ys e
              (stops_when_full limit (length text) c d (ltb→le (length text) limit full)))
        | inl room ↦ Edits-steps (edit_char limit text keys c nl d room) refl (
            Edits-char text keys c y ys e nl d (ltb→lt (length text) limit room)
              (λ y' ys' e'. key_loop-Edits keys (c ∷ text) y' ys' e'))
      ]
    ]
  ]

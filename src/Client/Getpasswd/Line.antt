-- ===== src/Client/Getpasswd/Line.antt =====
-- The password that `getpasswd` leaves in the buffer.
use reference_monitor.Base.{
  All, Bool-cases, List, [], ap, arith, false, inl, inr, length, ltb, refl, some, true, ℕ, ◌++◌,
  ◌-◌, ◌<◌, ◌==◌, ◌∷◌, ◌≡◌, ◌≤◌,
}
use reference_monitor.Base.Int.{pos, ℤ}
use reference_monitor.CString.{c_str}
use reference_monitor.Client.Getpasswd.{Tty, TtyEnv, getpasswd, max_pass_len, store_char}
use reference_monitor.Client.Getpasswd.Editor.{
  delete, edit, key_loop-Edits, length-rev_append, rev_append, set-rev_append, typing,
}
use reference_monitor.Run.{Returns, done}

-- The typed text in reading order
abbrev pub typed : (limit : ℕ) → (keys : List ℕ) → List ℕ
typed limit keys = rev_append (edit limit [] keys).0 []

abbrev pub NoNull : List ℕ → Type 0
NoNull s = All (λ c. 0 < c) s

edit-NoNull :
    (limit : ℕ) (keys text : List ℕ) → NoNull keys → NoNull text → NoNull (edit limit text keys).0
unfolding edit delete
edit-NoNull limit [] text k h = h
edit-NoNull limit (c ∷ keys) text k h = elim (Bool-cases (c == 10)) [
  | inl nl ↦ rw nl h
  | inr nl ↦ elim (Bool-cases (c == 127)) [
    | inl d ↦ rw (nl, d) (edit-NoNull limit keys (delete text) k.1 (delete-NoNull text h))
    | inr d ↦ elim (Bool-cases (ltb (length text) limit)) [
      | inl room ↦ rw (nl, d, room) (edit-NoNull limit keys (c ∷ text) k.1 (k.0, h))
      | inr full ↦ rw (nl, d, full) h
    ]
  ]
]
  where
    delete-NoNull : (s : List ℕ) → NoNull s → NoNull (delete s)
    delete-NoNull [] h = h
    delete-NoNull (x ∷ s) h = h.1

NoNull-rev_append : (xs ys : List ℕ) → NoNull xs → NoNull ys → NoNull (rev_append xs ys)
unfolding rev_append
NoNull-rev_append [] ys h h' = h'
NoNull-rev_append (x ∷ xs) ys h h' = NoNull-rev_append xs (x ∷ ys) h.1 (h.0, h')

rev_append-append : (xs ys zs : List ℕ) → rev_append xs (ys ++ zs) ≡ rev_append xs ys ++ zs
unfolding rev_append
rev_append-append [] ys zs = refl
rev_append-append (x ∷ xs) ys zs = rev_append-append xs (x ∷ ys) zs

c_str-append : (s rest : List ℕ) → NoNull s → c_str (s ++ 0 ∷ rest) ≡ some s
unfolding c_str
c_str-append [] rest h = refl
c_str-append (c ∷ s) rest h =
    let set_byte : (c == 0) ≡ false = ground (arith, h.0) in
    rw (set_byte, c_str-append s rest h.1, c_str) refl

-- The terminal does all that is asked of it.
pub record Works (e : TtyEnv) : Type 0 where
  pub get : e.get ≡ true
  pub set_raw : e.set_raw ≡ true
  pub reset : e.reset ≡ true

-- The length of the typed text is returned, the text is the string in the buffer, which keeps its
-- size, the keys behind the line are left, and the terminal is as before.
pub record Typed (sz : ℕ) (t : Tty) (r : ℤ) (t' : Tty) : Type 0 where
  pub bytes : List ℕ
  pub count : r ≡ pos (length (typed (sz - 1) t.input))
  pub buffer : t'.buffer ≡ some bytes
  pub string : c_str bytes ≡ some (typed (sz - 1) t.input)
  pub size : length bytes ≡ sz
  pub input : t'.input ≡ (edit (sz - 1) [] t.input).1
  pub cooked : t'.raw ≡ false

store_end :
    (t : Tty) (text ys : List ℕ) (y : ℕ)
    → store_char (length text) 0 (typing t (rev_append text (y ∷ ys)))
      ≡ done tt (typing t (rev_append text (0 ∷ ys)))
unfolding store_char
store_end t text ys y =
    let size = length-rev_append text (y ∷ ys) in
    let inside : ltb (length text) (length (rev_append text (y ∷ ys))) ≡ true =
      ground (arith, size) in
    rw (inside, set-rev_append text (y ∷ ys) (length text) 0 0 (omega arith)) refl

-- The buffer for the password has the bytes that `main` gave it.
abbrev pub IsSized : Tty → Type 0
IsSized t = (b : List ℕ) × (t.buffer ≡ some b) × (length b ≡ max_pass_len)

-- Whatever the terminal grants, the buffer keeps its size.
pub getpasswd-IsSized :
    (e : TtyEnv) (t : Tty) (b : List ℕ)
    → t.buffer ≡ some b
    → length b ≡ max_pass_len
    → Returns (λ r t'. IsSized t') (getpasswd e true max_pass_len true t)
unfolding getpasswd rev_append
getpasswd-IsSized e t [] bf len = absurd (omega arith)
getpasswd-IsSized e t (y ∷ ys) bf len =
    let (y', ys', run, size) =
      key_loop-Edits 31 (record t { raw = true }) t.input [] y ys (omega arith) in
    let text : List ℕ = (edit 31 [] t.input).0 in
    let ended = store_end (record t { input = (edit 31 [] t.input).1; raw = true }) text ys' y' in
    let whole : length (rev_append text (0 ∷ ys')) ≡ max_pass_len =
      omega (arith, length-rev_append text (0 ∷ ys')) in
    rw bf (elim (Bool-cases e.get) [
      | inr off ↦ rw off (y ∷ ys, refl, len)
      | inl got ↦ elim (Bool-cases e.set_raw) [
        | inr off ↦ rw (got, off) (y ∷ ys, refl, len)
        | inl is_raw ↦ elim (Bool-cases e.reset) [
          | inr off ↦ rw (got, is_raw, run, ended, off) (rev_append text (0 ∷ ys'), refl, whole)
          | inl on ↦ rw (got, is_raw, run, ended, on) (rev_append text (0 ∷ ys'), refl, whole)
        ]
      ]
    ])

-- On a terminal that works, with a buffer of as many bytes as are said, up to 32, and keys that are
-- not 0, `getpasswd` comes back without writing past the buffer, and does what a line editor with a
-- delete key does: the text that it leaves and counts, and the keys that it uses up, are those of
-- `edit` with room for all but one of the bytes.
pub getpasswd-Typed :
    (e : TtyEnv) (sz : ℕ) (t : Tty) (b : List ℕ)
    → Works e
    → t.buffer ≡ some b
    → length b ≡ sz
    → 0 < sz
    → sz ≤ max_pass_len
    → NoNull t.input
    → Returns (Typed sz t) (getpasswd e true sz true t)
unfolding getpasswd rev_append
getpasswd-Typed e sz t [] w bf len some_byte le keys = absurd (omega arith)
getpasswd-Typed e sz t (y ∷ ys) w bf len some_byte le keys =
    let some_size : (sz == 0) ≡ false = ground arith in
    let small : ltb max_pass_len sz ≡ false = ground arith in
    let (y', ys', run, size) =
      key_loop-Edits (sz - 1) (record t { raw = true }) t.input [] y ys (omega arith) in
    let text : List ℕ = (edit (sz - 1) [] t.input).0 in
    let ended =
      store_end (record t { input = (edit (sz - 1) [] t.input).1; raw = true }) text ys' y' in
    rw (some_size, small, bf, w.get, w.set_raw, run, ended, w.reset)
      (record {
        bytes = rev_append text (0 ∷ ys');
        count = ap pos (omega (arith, length-rev_append text []));
        buffer = refl;
        string = rw (rev_append-append text [] (0 ∷ ys')) (
            c_str-append (typed (sz - 1) t.input) ys'
              (NoNull-rev_append text [] (edit-NoNull (sz - 1) t.input [] keys tt) tt));
        size = omega (arith, length-rev_append text (0 ∷ ys'));
        input = refl;
        cooked = refl;
      })

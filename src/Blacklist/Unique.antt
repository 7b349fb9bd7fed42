-- ===== src/Blacklist/Unique.antt =====
-- The list as a set of paths: no path occurs twice, and what the two operations do to membership.
use reference_monitor.Base.{
  Bool-cases, List, [], arith, false, false≢true, inl, inr, not, refl, subst, sym, true, ◌&&◌, ◌++◌,
  ◌||◌, ◌∙◌, ◌∷◌, ◌≡◌,
}
use reference_monitor.Blacklist.Keeps.{with_path}
use reference_monitor.CString.{eq_of_str_eq, str_eq, str_eq_iff, str_eq_refl}
use reference_monitor.Monitor.{FilePath, Ptr}
use reference_monitor.Monitor.Chain.{Cells, paths}
use reference_monitor.Monitor.Edit.{contains, erase, erase_cell, paths-append, paths-erase_cell}

-- No path of the list occurs again behind itself.
unfoldable pub Unique : List FilePath → Type 0
Unique [] = Unit {0}
Unique (t ∷ ts) = (contains t ts ≡ false) × Unique ts

str_eq_sym : (s t : FilePath) → str_eq s t ≡ false → str_eq t s ≡ false
str_eq_sym s t ne = elim (Bool-cases (str_eq t s)) [
  | inl e ↦ absurd (false≢true (sym ne ∙ (str_eq_iff s t).1 (sym (eq_of_str_eq t s e))))
  | inr e ↦ e
]

contains-snoc :
    (q s : FilePath) (ts : List FilePath)
    → contains q (ts ++ s ∷ []) ≡ (contains q ts || str_eq s q)
unfolding contains
contains-snoc q s [] = ground arith
contains-snoc q s (t ∷ ts) = ground (arith, contains-snoc q s ts)

Unique-snoc :
    (s : FilePath) (ts : List FilePath) → Unique ts → contains s ts ≡ false → Unique (ts ++ s ∷ [])
unfolding Unique contains
Unique-snoc s [] u out = (refl, tt)
Unique-snoc s (t ∷ ts) (once, u) out =
    let differ : str_eq t s ≡ false = ground arith in
    let other : contains s ts ≡ false = ground arith in
    (contains-snoc t s ts ∙ rw (once, str_eq_sym t s differ) refl, Unique-snoc s ts u other)

contains-erase-false :
    (q s : FilePath) (ts : List FilePath) → contains q ts ≡ false → contains q (erase s ts) ≡ false
unfolding contains erase
contains-erase-false q s [] out = refl
contains-erase-false q s (t ∷ ts) out =
    let ih = contains-erase-false q s ts (ground arith) in ground (arith, ih)

Unique-erase : (s : FilePath) (ts : List FilePath) → Unique ts → Unique (erase s ts)
unfolding Unique erase
Unique-erase s [] u = tt
Unique-erase s (t ∷ ts) (once, u) = elim (Bool-cases (str_eq t s)) [
  | inl e ↦ rw e u
  | inr e ↦ rw e (contains-erase-false t s ts once, Unique-erase s ts u)
]

contains-erase :
    (q s : FilePath) (ts : List FilePath)
    → Unique ts
    → contains q (erase s ts) ≡ (not (str_eq s q) && contains q ts)
unfolding Unique contains erase
contains-erase q s [] u = ground arith
contains-erase q s (t ∷ ts) (once, u) = elim (Bool-cases (str_eq s q)) [
  | inl here ↦
      let same = eq_of_str_eq s q here in
      elim (Bool-cases (str_eq t s)) [
        | inl e ↦
            let first = eq_of_str_eq t s e in
            rw (e, here) (subst (λ z. contains z ts ≡ false) (first ∙ same) once)
        | inr e ↦
            let differ : str_eq t q ≡ false = subst (λ z. str_eq t z ≡ false) same e in
            rw (e, here, differ) (contains-erase q s ts u ∙ rw here refl)
      ]
  | inr gone ↦ elim (Bool-cases (str_eq t s)) [
    | inl e ↦
        let differ : str_eq t q ≡ false =
          subst (λ z. str_eq z q ≡ false) (sym (eq_of_str_eq t s e)) gone in
        rw (e, gone, differ) refl
    | inr e ↦ let ih = contains-erase q s ts u in ground (arith, ih, gone, e)
  ]
]

-- Putting a new path at the end, and taking one out.
pub with_path-Unique :
    (s : FilePath) (a : Ptr) (xs : Cells) → Unique (paths xs) → Unique (paths (with_path s a xs))
with_path-Unique s a xs u = elim (Bool-cases (contains s (paths xs))) [
  | inl old ↦ rw old u
  | inr new ↦ rw (new, paths-append xs ((a, s) ∷ [])) (Unique-snoc s (paths xs) u new)
]

pub contains-with_path :
    (q s : FilePath) (a : Ptr) (xs : Cells)
    → contains q (paths (with_path s a xs)) ≡ (str_eq s q || contains q (paths xs))
contains-with_path q s a xs = elim (Bool-cases (contains s (paths xs))) [
  | inl old ↦ rw old (elim (Bool-cases (str_eq s q)) [
    | inl e ↦ rw e (subst (λ z. contains z (paths xs) ≡ true) (eq_of_str_eq s q e) old)
    | inr e ↦ rw e refl
  ])
  | inr new ↦ rw (new, paths-append xs ((a, s) ∷ []), contains-snoc q s (paths xs)) (ground arith)
]

pub erase_cell-Unique :
    (s : FilePath) (xs : Cells) → Unique (paths xs) → Unique (paths (erase_cell s xs))
erase_cell-Unique s xs u = rw (paths-erase_cell s xs) (Unique-erase s (paths xs) u)

pub contains-erase_cell :
    (q s : FilePath) (xs : Cells)
    → Unique (paths xs)
    → contains q (paths (erase_cell s xs)) ≡ (not (str_eq s q) && contains q (paths xs))
contains-erase_cell q s xs u = rw (paths-erase_cell s xs) (contains-erase q s (paths xs) u)

-- The path itself is in the list after an insertion.
pub with_path-contains :
    (s : FilePath) (a : Ptr) (xs : Cells) → contains s (paths (with_path s a xs)) ≡ true
with_path-contains s a xs = ground (arith, contains-with_path s s a xs, str_eq_refl s)

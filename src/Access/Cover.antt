-- ===== src/Access/Cover.antt =====
-- Which paths a list of protected paths covers, as a test and by what it means.
use reference_monitor.Base.{
  ==_refl, Bool, Bool-cases, List, [], append_assoc, arith, false, inl, inr, length, length-append,
  refl, subst, sym, true, ℕ, ◌&&◌, ◌++◌, ◌-◌, ◌||◌, ◌↔◌, ◌∙◌, ◌∷◌, ◌≡◌, ◌⊎◌,
}
use reference_monitor.Access.{slash}
use reference_monitor.CString.{
  ends_with, eq_of_str_eq, prefix_of_strncmp_eq, str_eq, str_eq_refl, strncmp_eq, strncmp_eq-append,
}
use reference_monitor.Monitor.{FilePath}
use reference_monitor.Monitor.Edit.{contains}

-- The two comparisons of `is_blacklisted` with one protected path.
unfoldable pub matches : FilePath → FilePath → Bool
matches path s =
    strncmp_eq path s (length s) || (ends_with s slash && strncmp_eq path s (length s - 1))

unfoldable pub covered : FilePath → List FilePath → Bool
covered path [] = false
covered path (s ∷ ts) = matches path s || covered path ts

-- A protected path covers what begins with it, and what begins with it less a slash at its end.
abbrev pub Covers : FilePath → FilePath → Type 0
Covers s path =
    ((t : List ℕ) × (path ≡ s ++ t))
    ⊎ ((u : List ℕ) × (t : List ℕ) × (s ≡ u ++ slash ∷ []) × (path ≡ u ++ t))

unsnoc :
    (s : List ℕ) (c : ℕ)
    → ends_with s c ≡ true
    → (u : List ℕ) × (s ≡ u ++ c ∷ []) × (length s - 1 ≡ length u)
unfolding ends_with
unsnoc [] c h = ([], cc, refl)
unsnoc (x ∷ []) c h = ([], ground arith, refl)
unsnoc (x ∷ y ∷ ys) c h =
    let (u, e, n) = unsnoc (y ∷ ys) c h in (x ∷ u, ground (arith, e), omega (arith, n))

ends_with-snoc : (u : List ℕ) (c : ℕ) → ends_with (u ++ c ∷ []) c ≡ true
unfolding ends_with
ends_with-snoc [] c = ==_refl c
ends_with-snoc (x ∷ []) c = ==_refl c
ends_with-snoc (x ∷ y ∷ u) c = ends_with-snoc (y ∷ u) c

-- Comparing the first `length u` bytes only looks at those of the second string.
strncmp_eq-snoc :
    (path u v : List ℕ) → strncmp_eq path (u ++ v) (length u) ≡ strncmp_eq path u (length u)
unfolding strncmp_eq
strncmp_eq-snoc path [] v = refl
strncmp_eq-snoc [] (x ∷ u) v = refl
strncmp_eq-snoc (y ∷ path) (x ∷ u) v = rw (strncmp_eq-snoc path u v)

-- The second comparison, at a protected path `u` with a slash behind it.
second_test :
    (path s u : FilePath)
    → s ≡ u ++ slash ∷ []
    → strncmp_eq path s (length s - 1) ≡ strncmp_eq path u (length u)
second_test path s u e =
    let n : length (u ++ slash ∷ []) - 1 ≡ length u = omega (arith, length-append u (slash ∷ [])) in
    cc (e, n, strncmp_eq-snoc path u (slash ∷ []))

matches-Covers : (path s : FilePath) → matches path s ≡ true → Covers s path
unfolding matches
matches-Covers path s h = elim (Bool-cases (strncmp_eq path s (length s))) [
  | inl e ↦ inl (prefix_of_strncmp_eq path s e)
  | inr e ↦
      let (u, f, n) = unsnoc s slash (ground arith) in
      let (t, g) = prefix_of_strncmp_eq path u (ground (arith, second_test path s u f)) in
      inr (u, t, f, g)
]

Covers-matches : (path s : FilePath) → Covers s path → matches path s ≡ true
unfolding matches
Covers-matches path s (inl (t, e)) = rw (e, strncmp_eq-append s t)
Covers-matches path s (inr (u, t, e, f)) =
    let ends : ends_with s slash ≡ true =
      subst (λ z. ends_with z slash ≡ true) (sym e) (ends_with-snoc u slash) in
    let same : strncmp_eq path u (length u) ≡ true =
      subst (λ z. strncmp_eq z u (length u) ≡ true) (sym f) (strncmp_eq-append u t) in
    ground (arith, ends, second_test path s u e ∙ same)

covering :
    (path : FilePath) (ts : List FilePath)
    → covered path ts ≡ true
    → (s : FilePath) × (contains s ts ≡ true) × Covers s path
unfolding covered contains
covering path [] h = ([], cc, inl ([], cc))
covering path (t ∷ ts) h = elim (Bool-cases (matches path t)) [
  | inl e ↦ (t, rw (str_eq_refl t), matches-Covers path t e)
  | inr e ↦ let (s, i, c) = covering path ts (rw e at h) in (s, ground (arith, i), c)
]

pub covered_by :
    (path s : FilePath) (ts : List FilePath)
    → contains s ts ≡ true
    → Covers s path
    → covered path ts ≡ true
unfolding covered contains
covered_by path s [] i c = cc
covered_by path s (t ∷ ts) i c = elim (Bool-cases (str_eq t s)) [
  | inl e ↦ let hit = Covers-matches path s c in rw (eq_of_str_eq t s e, hit)
  | inr e ↦ ground (arith, covered_by path s ts (rw e at i) c)
]

-- The test on the whole list finds a covering path exactly if there is one.
pub covered_iff :
    (path : FilePath) (ts : List FilePath)
    → (covered path ts ≡ true) ↔ ((s : FilePath) × (contains s ts ≡ true) × Covers s path)
covered_iff path ts = (covering path ts, λ (s, i, c). covered_by path s ts i c)

Covers-append : (s path t : FilePath) → Covers s path → Covers s (path ++ t)
Covers-append s path t (inl (v, e)) = inl (v ++ t, rw (e, append_assoc))
Covers-append s path t (inr (u, v, e, f)) = inr (u, v ++ t, e, rw (f, append_assoc))

-- What is covered stays covered with more bytes behind it.
pub covered-append :
    (path t : FilePath) (ts : List FilePath)
    → covered path ts ≡ true
    → covered (path ++ t) ts ≡ true
covered-append path t ts h =
    let (s, i, c) = covering path ts h in covered_by (path ++ t) s ts i (Covers-append s path t c)

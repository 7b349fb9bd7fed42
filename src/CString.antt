-- ===== src/CString.antt =====
-- C strings: the bytes of a buffer up to its terminator, and the comparisons of the C library that
-- the sources use. A string is the list of its bytes, which does not hold the terminator.
use reference_monitor.Base.{
  ℕ, zero, suc, ◌≡◌, refl, ◌↔◌, Bool, true, false, ◌&&◌, Option, none, some, List, [], ◌∷◌, ◌++◌,
  arith, ◌==◌, ==_refl, if◌then◌else◌, Bool-cases, inl, inr, length,
}

-- The string that a buffer holds, `none` if it holds no terminator.
unfoldable pub c_str : List ℕ → Option (List ℕ)
c_str [] = none
c_str (c ∷ rest) =
    if c == 0 then some [] else elim (c_str rest) [ none ↦ none | some s ↦ some (c ∷ s) ]

-- `strcmp(a, b) == 0`
unfoldable pub str_eq : List ℕ → List ℕ → Bool
str_eq [] [] = true
str_eq [] (y ∷ ys) = false
str_eq (x ∷ xs) [] = false
str_eq (x ∷ xs) (y ∷ ys) = (x == y) && str_eq xs ys

-- `strncmp(a, b, n) == 0`
unfoldable pub strncmp_eq : List ℕ → List ℕ → ℕ → Bool
strncmp_eq xs ys zero = true
strncmp_eq [] [] (suc n) = true
strncmp_eq [] (y ∷ ys) (suc n) = false
strncmp_eq (x ∷ xs) [] (suc n) = false
strncmp_eq (x ∷ xs) (y ∷ ys) (suc n) = (x == y) && strncmp_eq xs ys n

-- `s[strlen(s) - 1] == c` for a string that is not empty
unfoldable pub ends_with : List ℕ → ℕ → Bool
ends_with [] c = false
ends_with (x ∷ []) c = x == c
ends_with (x ∷ y ∷ ys) c = ends_with (y ∷ ys) c

pub str_eq_refl : (xs : List ℕ) → str_eq xs xs ≡ true
unfolding str_eq
str_eq_refl [] = refl
str_eq_refl (x ∷ xs) = rw (==_refl x) (str_eq_refl xs)

pub eq_of_str_eq : (xs ys : List ℕ) → str_eq xs ys ≡ true → xs ≡ ys
unfolding str_eq
eq_of_str_eq [] [] h = refl
eq_of_str_eq [] (y ∷ ys) h = cc
eq_of_str_eq (x ∷ xs) [] h = cc
eq_of_str_eq (x ∷ xs) (y ∷ ys) h = ground (arith, eq_of_str_eq xs ys)

-- `strcmp` is 0 exactly on equal strings.
pub str_eq_iff : (xs ys : List ℕ) → (str_eq xs ys ≡ true) ↔ (xs ≡ ys)
str_eq_iff xs ys = (eq_of_str_eq xs ys, λ e. rw e (str_eq_refl ys))

-- Comparing as many bytes as the second string has tests for a prefix.
pub strncmp_eq-append : (s t : List ℕ) → strncmp_eq (s ++ t) s (length s) ≡ true
unfolding strncmp_eq
strncmp_eq-append [] t = refl
strncmp_eq-append (x ∷ s) t = rw (==_refl x) (strncmp_eq-append s t)

pub prefix_of_strncmp_eq :
    (path s : List ℕ) → strncmp_eq path s (length s) ≡ true → (t : List ℕ) × (path ≡ s ++ t)
unfolding strncmp_eq
prefix_of_strncmp_eq path [] h = (path, refl)
prefix_of_strncmp_eq [] (y ∷ s) h = ([], cc)
prefix_of_strncmp_eq (x ∷ path) (y ∷ s) h = elim (Bool-cases (x == y)) [
  | inl e ↦ let (t, p) = prefix_of_strncmp_eq path s (rw e at h) in (t, ground (arith, p))
  | inr e ↦ absurd (ground arith)
]

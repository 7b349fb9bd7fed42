-- ===== src/SyscallTable/Entries.antt =====
-- Which entries `get_entries` finds.
use reference_monitor.Base.{
  ==_iff, All, Bool-cases, List, Option-cases, [], ap, arith, inl, inr, length, ltb, none, refl,
  some, subst, suc, sym, zero, ℕ, ◌++◌, ◌+◌, ◌-◌, ◌<◌, ◌==◌, ◌∙◌, ◌∷◌, ◌≡◌, ◌≤◌,
}
use reference_monitor.SyscallTable.{Table, acquire, collect, get_entries, inner, outer, settle}

-- The entries rise, lie from `lo` up and below `hi`, and hold `value`.
abbrev pub Rising : ℕ → ℕ → List ℕ → Type 0
Rising lo hi [] = Unit {0}
Rising lo hi (i ∷ is) = (lo ≤ i) × (i < hi) × Rising (i + 1) hi is

Rising-weaken : (lo hi hi' : ℕ) (is : List ℕ) → hi ≤ hi' → Rising lo hi is → Rising lo hi' is
Rising-weaken lo hi hi' [] h r = tt
Rising-weaken lo hi hi' (i ∷ is) h r = (r.0, omega arith, Rising-weaken (i + 1) hi hi' is h r.2)

Rising-snoc : (lo k : ℕ) (is : List ℕ) → lo ≤ k → Rising lo k is → Rising lo (k + 1) (is ++ k ∷ [])
Rising-snoc lo k [] h r = (h, omega arith, tt)
Rising-snoc lo k (i ∷ is) h r = (r.0, omega arith, Rising-snoc (i + 1) k is (omega arith) r.2)

-- The indices so far: rising, below `k`, and all with the same address.
abbrev Sofar : Table → ℕ → ℕ → List ℕ → Type 0
Sofar p value k is = Rising 0 k is × All (λ i. p i ≡ value) is

All-snoc :
    (p : Table) (value i : ℕ) (is : List ℕ)
    → All (λ i. p i ≡ value) is
    → p i ≡ value
    → All (λ i. p i ≡ value) (is ++ i ∷ [])
All-snoc p value i [] h e = (e, tt)
All-snoc p value i (j ∷ is) h e = (h.0, All-snoc p value i is h.1 e)

Sofar-weaken :
    (p : Table) (value k k' : ℕ) (is : List ℕ) → k ≤ k' → Sofar p value k is → Sofar p value k' is
Sofar-weaken p value k k' is h s = (Rising-weaken 0 k k' is h s.0, s.1)

acquire-Sofar :
    (p : Table) (value num i k : ℕ) (is : List ℕ)
    → i < k
    → p i ≡ value
    → Sofar p value i is
    → Sofar p value k (acquire num i is)
unfolding acquire
acquire-Sofar p value num i k is h e s = elim (Bool-cases (ltb (length is) num)) [
  | inl t ↦ rw t (
      Sofar-weaken p value (i + 1) k (is ++ i ∷ []) (omega arith)
        (Rising-snoc 0 i is (omega arith) s.0, All-snoc p value i is s.1 e))
  | inr t ↦ rw t (Sofar-weaken p value i k is (omega arith) s)
]

collect-Sofar :
    (n k : ℕ) (p : Table) (value num : ℕ) (is : List ℕ)
    → Sofar p value k is
    → Sofar p value (k + n) (collect n k p value num is)
unfolding collect
collect-Sofar zero k p value num is s = Sofar-weaken p value k (k + zero) is (omega arith) s
collect-Sofar (suc n) k p value num is s = elim (Bool-cases (ltb (length is) num)) [
  | inl t ↦ elim (Bool-cases (p k == value)) [
    | inl e ↦
        rw (t, e)
          (Sofar-weaken p value (k + 1 + n) (k + suc n)
            (collect n (k + 1) p value num (is ++ k ∷ [])) (omega arith)
            (collect-Sofar n (k + 1) p value num (is ++ k ∷ []) (
              Rising-snoc 0 k is (omega arith) s.0,
              All-snoc p value k is s.1 ((==_iff (p k) value).0 e),
            )))
    | inr e ↦
        rw (t, e)
          (Sofar-weaken p value (k + 1 + n) (k + suc n) (collect n (k + 1) p value num is)
            (omega arith)
            (collect-Sofar n (k + 1) p value num is
              (Sofar-weaken p value k (k + 1) is (omega arith) s)))
  ]
  | inr t ↦ rw t (Sofar-weaken p value k (k + suc n) is (omega arith) s)
]

-- What a successful search has found.
pub record Found (p : Table) (num : ℕ) (r : List ℕ × ℕ) : Type 0 where
  pub count : length r.0 ≡ num
  pub rising : Rising 0 256 r.0
  pub held : All (λ i. p i ≡ r.1) r.0

some_pair : {A : Type 0} {a b : A} → some a ≡ some b → a ≡ b
some_pair e = cc

-- What the search collects from `i` and `z` on.
gathered : Table → ℕ → ℕ → ℕ → List ℕ
gathered p num i z = collect (255 - z) (z + 1) p (p i) num (acquire num z (acquire num i []))

gathered-Sofar :
    (p : Table) (num i z : ℕ) → i < z → z < 256 → p i ≡ p z → Sofar p (p i) 256 (gathered p num i z)
unfolding gathered
gathered-Sofar p num i z h hz e =
    let first = acquire-Sofar p (p i) num i z [] h refl (tt, tt) in
    let second =
      acquire-Sofar p (p i) num z (z + 1) (acquire num i []) (omega arith) (sym e) first in
    Sofar-weaken p (p i) (z + 1 + (255 - z)) 256 (gathered p num i z) (omega arith)
      (collect-Sofar (255 - z) (z + 1) p (p i) num (acquire num z (acquire num i [])) second)

settle-Found :
    (p : Table) (num i z : ℕ) (r : List ℕ × ℕ)
    → i < z
    → z < 256
    → p i ≡ p z
    → settle p num i z ≡ some r
    → Found p num r
unfolding settle gathered
settle-Found p num i z r h hz e s = elim (Bool-cases (length (gathered p num i z) == num)) [
  | inl t ↦
      let all = gathered-Sofar p num i z h hz e in
      subst (Found p num) (some_pair (rw t at s))
        (record { count = (==_iff _ num).0 t; rising = all.0; held = all.1 })
  | inr t ↦ absurd (none≢some (rw t at s))
]
  where
    none≢some : none ≡ some r → ⊥
    none≢some e = cc

inner-Found :
    (n z : ℕ) (p : Table) (num i : ℕ) (r : List ℕ × ℕ)
    → i < z
    → z + n ≡ 256
    → inner n z p num i ≡ some (some r)
    → Found p num r
unfolding inner
inner-Found zero z p num i r h hn e = cc
inner-Found (suc n) z p num i r h hn e = elim (Bool-cases (p i == p z)) [
  | inl t ↦
      settle-Found p num i z r h (omega arith) ((==_iff (p i) (p z)).0 t) (some_pair (rw t at e))
  | inr t ↦ inner-Found n (z + 1) p num i r (omega arith) (omega arith) (rw t at e)
]

outer-Found :
    (n i : ℕ) (p : Table) (num : ℕ) (r : List ℕ × ℕ)
    → i + n ≡ 256
    → outer n i p num ≡ some r
    → Found p num r
unfolding outer
outer-Found zero i p num r hn e = cc
outer-Found (suc n) i p num r hn e = elim (Option-cases (inner (255 - i) (i + 1) p num i)) [
  | inl none_here ↦ outer-Found n (i + 1) p num r (omega arith) (rw (none_here, outer) at e)
  | inr (found, here) ↦
      let found_r : found ≡ some r = rw (here, outer) at e in
      inner-Found (255 - i) (i + 1) p num i r (omega arith) (omega arith) (here ∙ ap some found_r)
]

-- When `get_entries` does not return -1, it returns as many entries as were asked for: different
-- indices below 256 in rising order, whose entries all hold the address that it reports.
pub get_entries-Found :
    (p : Table) (num : ℕ) (r : List ℕ × ℕ) → get_entries p num ≡ some r → Found p num r
unfolding get_entries
get_entries-Found p num r e = elim (Bool-cases (ltb num 1)) [
  | inl t ↦ absurd (none≢some (rw t at e))
  | inr t ↦ elim (Bool-cases (ltb 10 num)) [
    | inl u ↦ absurd (none≢some (rw (t, u) at e))
    | inr u ↦ outer-Found 256 0 p num r refl (rw (t, u) at e)
  ]
]
  where
    none≢some : none ≡ some r → ⊥
    none≢some e = cc

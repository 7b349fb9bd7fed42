-- ===== src/Monitor/Edit.antt =====
-- The two edits of a chain that the list operations make: linking a node behind the last one, and
-- unlinking a node behind its predecessor.
use reference_monitor.Base.{
  Bool, Bool-cases, List, [], arith, false, if◌then◌else◌, inl, inr, refl, some, subst₂, sym, true,
  ◌++◌, ◌==◌, ◌||◌, ◌∙◌, ◌∷◌, ◌≡◌, ◌≢◌,
}
use reference_monitor.CString.{str_eq}
use reference_monitor.Monitor.{FilePath, Nodes, Ptr, node, null, write}
use reference_monitor.Monitor.Chain.{Cells, Chain, Chain-write, has, paths, start}

-- Whether a path is in the list, and the list without its first occurrence.
unfoldable pub contains : FilePath → List FilePath → Bool
contains s [] = false
contains s (t ∷ ts) = str_eq t s || contains s ts

unfoldable pub erase : FilePath → List FilePath → List FilePath
erase s [] = []
erase s (t ∷ ts) = if str_eq t s then ts else t ∷ erase s ts

unfoldable pub erase_cell : FilePath → Cells → Cells
erase_cell s [] = []
erase_cell s ((a, t) ∷ xs) = if str_eq t s then xs else (a, t) ∷ erase_cell s xs

pub paths-erase_cell : (s : FilePath) (xs : Cells) → paths (erase_cell s xs) ≡ erase s (paths xs)
unfolding erase erase_cell
paths-erase_cell s [] = refl
paths-erase_cell s ((a, t) ∷ xs) = ground (arith, paths-erase_cell s xs)

pub paths-append : (xs ys : Cells) → paths (xs ++ ys) ≡ paths xs ++ paths ys
paths-append [] ys = refl
paths-append ((a, t) ∷ xs) ys = rw (paths-append xs ys)

-- Memory after the last of the nodes `(c, t) ∷ rest` is linked to `new`.
unfoldable pub link_last : Nodes → (c : Ptr) → FilePath → Cells → (new : Ptr) → Nodes
link_last h c t [] new = write h c (some (node t new))
link_last h c t ((d, u) ∷ rest) new = link_last h d u rest new

pub link_last-same :
    (h : Nodes) (c : Ptr) (t : FilePath) (rest : Cells) (new b : Ptr)
    → has b ((c, t) ∷ rest) ≡ false
    → link_last h c t rest new b ≡ h b
unfolding link_last write
link_last-same h c t [] new b out = ground arith
link_last-same h c t ((d, u) ∷ rest) new b out = link_last-same h d u rest new b (ground arith)

pub has-snoc :
    (b : Ptr) (xs : Cells) (new : Ptr) (s : FilePath)
    → has b (xs ++ (new, s) ∷ []) ≡ (has b xs || (b == new))
has-snoc b [] new s = ground arith
has-snoc b ((a, t) ∷ xs) new s = ground (arith, has-snoc b xs new s)

-- A new node behind the last one makes the chain longer by that node.
pub Chain-link_last :
    (h : Nodes) (c : Ptr) (t : FilePath) (rest : Cells) (new : Ptr) (s : FilePath)
    → Chain h ((c, t) ∷ rest)
    → new ≢ null
    → h new ≡ some (node s null)
    → has new ((c, t) ∷ rest) ≡ false
    → Chain (link_last h c t rest new) ((c, t) ∷ rest ++ (new, s) ∷ [])
unfolding link_last write
Chain-link_last h c t [] new s ch ne e out =
    (ch.0, ground arith, ground arith, (ne, ground arith, refl, tt))
Chain-link_last h c t ((d, u) ∷ rest) new s ch ne e out = (
  ch.0,
  link_last-same h d u rest new c ch.2 ∙ ch.1,
  ground (arith, has-snoc c rest new s),
  Chain-link_last h d u rest new s ch.3 ne e (ground arith),
)

-- Memory after the first node with the path `s` behind `(p, u)` is unlinked from its predecessor.
unfoldable pub unlink_after : Nodes → (p : Ptr) → FilePath → Cells → FilePath → Nodes
unlink_after h p u [] s = h
unlink_after h p u ((c, t) ∷ rest) s =
    if str_eq t s then write h p (some (node u (start null rest))) else unlink_after h c t rest s

pub unlink_after-same :
    (h : Nodes) (p : Ptr) (u : FilePath) (xs : Cells) (s : FilePath) (b : Ptr)
    → has b ((p, u) ∷ xs) ≡ false
    → unlink_after h p u xs s b ≡ h b
unfolding unlink_after write
unlink_after-same h p u [] s b out = refl
unlink_after-same h p u ((c, t) ∷ rest) s b out = ground (arith, unlink_after-same h c t rest s b)

pub has-erase_cell :
    (b : Ptr) (xs : Cells) (s : FilePath) → has b xs ≡ false → has b (erase_cell s xs) ≡ false
unfolding erase_cell
has-erase_cell b [] s out = refl
has-erase_cell b ((a, t) ∷ xs) s out = ground (arith, has-erase_cell b xs s)

pub start-erase_cell :
    (c : Ptr) (t : FilePath) (rest : Cells) (s : FilePath)
    → str_eq t s ≡ false
    → start null (erase_cell s ((c, t) ∷ rest)) ≡ c
unfolding erase_cell
start-erase_cell c t rest s miss = rw miss

module _ (h : Nodes) (p : Ptr) (u : FilePath) (c : Ptr) (t : FilePath) (rest : Cells)
    (s : FilePath) where
  unlink_after_hit :
      str_eq t s ≡ true
      → unlink_after h p u ((c, t) ∷ rest) s ≡ write h p (some (node u (start null rest)))
  unfolding unlink_after
  unlink_after_hit e = rw e

  unlink_after_miss :
      str_eq t s ≡ false → unlink_after h p u ((c, t) ∷ rest) s ≡ unlink_after h c t rest s
  unfolding unlink_after
  unlink_after_miss e = rw e

  Chain-unlink_hit :
      Chain h ((p, u) ∷ (c, t) ∷ rest)
      → Chain (write h p (some (node u (start null rest)))) ((p, u) ∷ rest)
  unfolding write
  Chain-unlink_hit ch =
      (ch.0, ground arith, ground arith, Chain-write h p _ rest (ground arith) (ch.3).3)

pub erase_cell_hit :
    (c : Ptr) (t : FilePath) (rest : Cells) (s : FilePath)
    → str_eq t s ≡ true
    → erase_cell s ((c, t) ∷ rest) ≡ rest
unfolding erase_cell
erase_cell_hit c t rest s e = rw e

pub erase_cell_miss :
    (c : Ptr) (t : FilePath) (rest : Cells) (s : FilePath)
    → str_eq t s ≡ false
    → erase_cell s ((c, t) ∷ rest) ≡ (c, t) ∷ erase_cell s rest
unfolding erase_cell
erase_cell_miss c t rest s e = rw e

-- The unlinked node is gone from the chain, and nothing else is.
pub Chain-unlink_after :
    (h : Nodes) (p : Ptr) (u : FilePath) (xs : Cells) (s : FilePath)
    → Chain h ((p, u) ∷ xs)
    → Chain (unlink_after h p u xs s) ((p, u) ∷ erase_cell s xs)
Chain-unlink_after h p u [] s ch = unfold unlink_after erase_cell in ch
Chain-unlink_after h p u ((c, t) ∷ rest) s ch = elim (Bool-cases (str_eq t s)) [
  | inl hit ↦
      subst₂ (λ g ys. Chain g ((p, u) ∷ ys)) (sym (unlink_after_hit h p u c t rest s hit))
        (sym (erase_cell_hit c t rest s hit)) (Chain-unlink_hit h p u c t rest s ch)
  | inr miss ↦
      subst₂ (λ g ys. Chain g ((p, u) ∷ ys)) (sym (unlink_after_miss h p u c t rest s miss))
        (sym (erase_cell_miss c t rest s miss))
        (
          ch.0,
          unlink_after-same h c t rest s p ch.2 ∙ ch.1,
          ground (arith, has-erase_cell p rest s),
          Chain-unlink_after h c t rest s ch.3,
        )
]

-- Nothing is taken out for a path that is not there.
pub erase_cell-absent :
    (s : FilePath) (xs : Cells) → contains s (paths xs) ≡ false → erase_cell s xs ≡ xs
unfolding erase_cell contains
erase_cell-absent s [] e = refl
erase_cell-absent s ((a, t) ∷ xs) e = ground (arith, erase_cell-absent s xs)

module _ (s : FilePath) (t : FilePath) (ts : List FilePath) where
  pub contains_hit : str_eq t s ≡ true → contains s (t ∷ ts) ≡ true
  unfolding contains
  contains_hit e = rw e

  pub contains_miss : str_eq t s ≡ false → contains s (t ∷ ts) ≡ contains s ts
  unfolding contains
  contains_miss e = rw e

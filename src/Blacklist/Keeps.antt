-- ===== src/Blacklist/Keeps.antt =====
-- Both operations keep the monitor well-formed.
use reference_monitor.Base.{
  Bool-cases, [], arith, if◌then◌else◌, inl, inr, length, length-append, ℕ, ◌++◌, ◌+◌, ◌<◌, ◌^◌,
  ◌∷◌, ◌≤◌,
}
use reference_monitor.Base.Int.{ℤ}
use reference_monitor.Blacklist.Add.{Added}
use reference_monitor.Blacklist.Remove.{Removed, size_after}
use reference_monitor.Monitor.{FilePath, Monitor, Ptr}
use reference_monitor.Monitor.Chain.{Cells, paths}
use reference_monitor.Monitor.Edit.{contains, erase_cell}
use reference_monitor.Monitor.Invariant.{Holds}

pub length-erase_cell-le : (s : FilePath) (xs : Cells) → length (erase_cell s xs) ≤ length xs
unfolding erase_cell
length-erase_cell-le s [] = omega arith
length-erase_cell-le s ((a, t) ∷ xs) = ground (arith, length-erase_cell-le s xs)

-- The list after an insertion.
abbrev pub with_path : FilePath → Ptr → Cells → Cells
with_path s a xs = if contains s (paths xs) then xs else xs ++ (a, s) ∷ []

pub Added-Holds :
    (m m' : Monitor) (xs : Cells) (s : FilePath) (a : Ptr) (r : ℤ)
    → Holds m xs
    → m.size + 1 < 2 ^ 32
    → Added m xs s a r m'
    → Holds m' (with_path s a xs)
Added-Holds m m' xs s a r h room ad = elim (Bool-cases (contains s (paths xs))) [
  | inl old ↦ record {
    list = ad.1;
    unlocked = ad.3;
    counted = ground (arith, old, h.counted, ad.2);
    fits = ground (arith, old, h.fits, ad.2);
  }
  | inr unknown ↦ record {
    list = ad.1;
    unlocked = ad.3;
    counted = ground (arith, unknown, h.counted, ad.2, length-append xs ((a, s) ∷ []));
    fits = ground (arith, unknown, h.fits, ad.2);
  }
]

size_after_bounds :
    (s : FilePath) (xs : Cells) (n : ℕ)
    → length xs ≤ n
    → n < 2 ^ 32
    → (length (erase_cell s xs) ≤ size_after s (paths xs) n) × (size_after s (paths xs) n < 2 ^ 32)
unfolding size_after erase_cell
size_after_bounds s [] n h f = omega arith
size_after_bounds s ((a, t) ∷ xs) n h f = ground (arith, length-erase_cell-le s xs)

-- A removal does not raise the count.
pub size_after-le :
    (s : FilePath) (xs : Cells) (n : ℕ) → length xs ≤ n → n < 2 ^ 32 → size_after s (paths xs) n ≤ n
unfolding size_after
size_after-le s [] n h f = omega arith
size_after-le s ((a, t) ∷ xs) n h f = ground arith

pub Removed-Holds :
    (m m' : Monitor) (xs : Cells) (s : FilePath) (r : ℤ)
    → Holds m xs
    → Removed m xs s r m'
    → Holds m' (erase_cell s xs)
Removed-Holds m m' xs s r h re =
    let bounds = size_after_bounds s xs m.size h.counted h.fits in
    record {
      list = re.1;
      unlocked = re.3;
      counted = omega (arith, re.2, bounds.0);
      fits = omega (arith, re.2, bounds.1);
    }

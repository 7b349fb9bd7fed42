-- ===== src/Access/Race/Changes.antt =====
-- A decision during which other processors change the monitor any number of times.
-- From the monitor `m` with the list `xs`, changes by other processors lead to the monitor `n` with the list
-- `ys`. The lists that there were on the way are `seen`, the last first.
use reference_monitor.Base.{
  List, [], arith, length, refl, some, subst, subst₂, sym, ℕ, ◌+◌, ◌<◌, ◌∷◌, ◌≡◌, ◌≤◌,
}
use reference_monitor.Access.{finish_check, start_check}
use reference_monitor.Access.Decision.{covered_none}
use reference_monitor.Access.Race.{start_check-head}
use reference_monitor.Access.Race.Shift.{Change, Change-Changed, Changed}
use reference_monitor.Access.Race.Stale.{RightForSome, Stale, Stale-Shift, Stale-decided, connected}
use reference_monitor.Base.Int.{ℤ}
use reference_monitor.Monitor.{FilePath, Monitor, Ptr}
use reference_monitor.Monitor.Chain.{Cells}
use reference_monitor.Monitor.Invariant.{Holds}
use reference_monitor.Run.{Cmd, Returns, done}

pub data Changes (fuel : ℕ) (m : Monitor) (xs : Cells)
    : (n : Monitor) → (ys : Cells) → (seen : List Cells) → Type 0 where
  unchanged : Changes fuel m xs m xs (xs ∷ [])
  changed :
      {n n' : Monitor} {ys zs : Cells} {seen : List Cells} {edit : Cmd Monitor ℤ} (r : ℤ)
      → Changes fuel m xs n ys seen
      → Change fuel n ys edit zs
      → edit n ≡ done r n'
      → Changes fuel m xs n' zs (zs ∷ seen)

-- What holds after the changes, of a head `z` read before them.
record Reached (path : FilePath) (z : Ptr) (k : ℕ) (n : Monitor) (ys : Cells) (seen : List Cells)
    : Type 0 where
  before : List Cells
  last : seen ≡ ys ∷ before
  holds : Holds n ys
  short : length ys < k
  stale : Stale path z n.nodes ys seen k

Shift-Reached :
    (path : FilePath) (z : Ptr) (k : ℕ) (n n' : Monitor) (ys zs : Cells) (seen : List Cells)
    → Reached path z k n ys seen
    → Changed n ys n' zs
    → Reached path z (k + 1) n' zs (zs ∷ seen)
Shift-Reached path z k n n' ys zs seen r c = record {
  before = seen;
  last = refl;
  holds = c.holds;
  short = omega (arith, r.short, c.short);
  stale =
      subst (λ us. Stale path z n'.nodes zs (zs ∷ us) (k + 1)) (sym r.last)
        (Stale-Shift path z n.nodes n'.nodes ys zs r.before k
          (subst (λ us. Stale path z n.nodes ys us k) r.last r.stale) c.holds.list.chain c.short
          c.shift);
}

module _ (fuel : ℕ) (path : FilePath) (m : Monitor) (xs : Cells) (h : Holds m xs) where
  Changes-Reached :
      (n : Monitor) (ys : Cells) (seen : List Cells)
      → Changes fuel m xs n ys seen
      → length xs + length seen ≤ fuel
      → Reached path m.head (length xs + length seen) n ys seen
  Changes-Reached n ys seen unchanged lt = record {
    before = [];
    last = refl;
    holds = h;
    short = omega arith;
    stale =
        connected [] h.list.chain h.list.head (λ i. absurd (let free = covered_none path in cc))
          (omega arith);
  }
  Changes-Reached n ys _ (changed {n = n0} {ys = ys0} {seen = seen} {edit} r past ch e) lt =
      let so_far = Changes-Reached n0 ys0 seen past (omega arith) in
      let done_it =
        Change-Changed fuel n0 ys0 ys edit so_far.holds (omega (arith, so_far.short)) ch in
      let step : Changed n0 ys0 n ys = subst (Returns (λ r m'. Changed n0 ys0 m' ys)) e done_it in
      let next = Shift-Reached path m.head (length xs + length seen) n0 n ys0 ys seen so_far step in
      subst (λ k. Reached path m.head k n ys (ys ∷ seen)) (omega arith) next

-- Let the monitor be well-formed, and the tests of `is_blacklisted` be passed and the head be read. Let
-- other processors then add and remove paths and set the state, any number of times and in any order,
-- before the lock is taken. The kernel copies their paths and gives them memory, for a new node where
-- no node lies and with NULL in `next`; the count has room for each addition; and the fuel is at least
-- the number of the first list's nodes plus the number of the lists that there were. The decision
-- comes back, with the monitor as the others left it, and is right for one of these lists, from the
-- first to the last.
pub finish_check-RightForSome :
    (fuel : ℕ) (path : FilePath) (m n : Monitor) (xs ys : Cells) (seen : List Cells) (curr : Ptr)
    → Holds m xs
    → start_check m ≡ done (some curr) m
    → Changes fuel m xs n ys seen
    → length xs + length seen ≤ fuel
    → Returns
        (λ d n'. RightForSome path seen d × (n' ≡ n))
        (finish_check fuel (some path) (some curr) n)
finish_check-RightForSome fuel path m n xs ys seen curr h tested past lt =
    let r = Changes-Reached fuel path m xs h n ys seen past lt in
    subst₂
      (λ us z.
        Returns (λ d n'. RightForSome path us d × (n' ≡ n))
          (finish_check fuel (some path) (some z) n))
      (sym r.last) (start_check-head m curr tested)
      (Stale-decided fuel path n ys r.before m.head (length xs + length seen)
        (subst (λ us. Stale path m.head n.nodes ys us (length xs + length seen)) r.last r.stale) lt
        r.holds.unlocked)

-- ===== src/Access/Race.antt =====
-- A decision during which another processor changes the list.
pub mod Shift
pub mod Stale
pub mod Changes
use reference_monitor.Base.{
  Bool, Bool-cases, List, [], ap, arith, false, if◌then◌else◌, inl, inr, length, length-append,
  none, refl, some, subst, sym, true, ℕ, ◌+◌, ◌<◌, ◌==◌, ◌||◌, ◌∙◌, ◌∷◌, ◌≡◌, ◌≤◌, ◌⊎◌,
}
use reference_monitor.Access.{finish_check, is_blacklisted, start_check}
use reference_monitor.Access.Cover.{covered}
use reference_monitor.Access.Decision.{finish_check_lem, verdict}
use reference_monitor.Base.Int.{eq_pos, ℤ}
use reference_monitor.Blacklist.{AddEnv, Block, RemoveEnv, add_to_blacklist, remove_from_blacklist}
use reference_monitor.Blacklist.Add.{Added, Granted, add_to_blacklist-Added}
use reference_monitor.Blacklist.Keeps.{length-erase_cell-le, with_path}
use reference_monitor.Blacklist.Remove.{
  Removed, remove_from_blacklist-Removed, remove_from_blacklist-first,
}
use reference_monitor.CString.{c_str, str_eq}
use reference_monitor.Client.Getpasswd.Editor.{edit}
use reference_monitor.Client.Modules.Screens.{left}
use reference_monitor.Monitor.{FilePath, Monitor, Ptr, null}
use reference_monitor.Monitor.Chain.{Cells, Chain, paths, start}
use reference_monitor.Monitor.Edit.{contains, erase_cell, start-erase_cell}
use reference_monitor.Monitor.Invariant.{Holds}
use reference_monitor.Run.{Cmd, Returns, Returns-mono, and_then, done, pure}
use reference_monitor.Syscalls.Call.{size}

-- Without a change in between, the two parts are the whole.
is_blacklisted-parts :
    (fuel : ℕ) (path : FilePath) (m : Monitor)
    → is_blacklisted fuel (some path) m ≡ and_then (start_check m) (finish_check fuel (some path))
unfolding is_blacklisted start_check finish_check
is_blacklisted-parts fuel path m = elim (Bool-cases (m.size == 0)) [
  | inl z ↦ rw z refl
  | inr z ↦ elim (Bool-cases (eq_pos m.state 1 || eq_pos m.state 3)) [
    | inl o ↦ rw (z, o) refl
    | inr o ↦ rw (z, o) refl
  ]
]

-- The answer is right for the list `xs` or for the list `ys`, and the monitor is as it was.
abbrev RightForOne : FilePath → (xs ys : Cells) → Monitor → ℕ → Monitor → Type 0
RightForOne path xs ys m d m' =
    ((d ≡ verdict (covered path (paths xs))) ⊎ (d ≡ verdict (covered path (paths ys)))) × (m' ≡ m)

module _ (fuel : ℕ) (path : FilePath) (m : Monitor) (xs : Cells) (h : Holds m xs) where
  from_head :
      (m' : Monitor) (ys zs : Cells)
      → Chain m'.nodes zs
      → m'.locked ≡ false
      → length zs < fuel
      → m.head ≡ start null zs
      → (paths zs ≡ paths xs) ⊎ (paths zs ≡ paths ys)
      → Returns (RightForOne path xs ys m') (finish_check fuel (some path) (some m.head) m')
  from_head m' ys zs ch un lt e which =
      let run =
        subst
          (λ z.
            finish_check fuel (some path) (some z) m'
            ≡ done (verdict (covered path (paths zs))) (record m' { locked = false }))
          (sym e) (finish_check_lem fuel path zs m' ch un lt) in
      let right =
        λ (ts : List FilePath) (same : paths zs ≡ ts). ap (λ us. verdict (covered path us)) same in
      rw run (
        elim which [ inl p ↦ inl (right (paths xs) p) | inr p ↦ inr (right (paths ys) p) ],
        ap (λ l. record m' { locked = l }) (sym un),
      )

length-with_path-le :
    (s : FilePath) (a : Ptr) (xs : Cells) → length (with_path s a xs) ≤ length xs + 1
length-with_path-le s a xs = elim (Bool-cases (contains s (paths xs))) [
  | inl old ↦ rw old (omega arith)
  | inr new ↦ rw new (omega (arith, length-append xs ((a, s) ∷ [])))
]

start-with_path :
    (s : FilePath) (a c : Ptr) (t : FilePath) (rest : Cells)
    → start null (with_path s a ((c, t) ∷ rest)) ≡ c
start-with_path s a c t rest = elim (Bool-cases (contains s (t ∷ paths rest))) [
  | inl old ↦ rw old refl
  | inr new ↦ rw new refl
]

after_add :
    (fuel : ℕ) (path : FilePath) (m : Monitor) (xs : Cells) (h : Holds m xs) (s : FilePath)
    (a : Ptr) (r : ℤ) (m' : Monitor)
    → Added m xs s a r m'
    → length xs + 1 < fuel
    → Returns
        (RightForOne path xs (with_path s a xs) m')
        (finish_check fuel (some path) (some m.head) m')
after_add fuel path m [] h s a r m' ad lt =
    from_head fuel path m [] h m' (with_path s a []) [] tt ad.3 (omega arith) h.list.head (inl refl)
after_add fuel path m ((c, t) ∷ rest) h s a r m' ad lt =
    let zs : Cells = with_path s a ((c, t) ∷ rest) in
    let short = length-with_path-le s a ((c, t) ∷ rest) in
    from_head fuel path m ((c, t) ∷ rest) h m' zs zs ad.1.chain ad.3 (omega (arith, short))
      (h.list.head ∙ sym (start-with_path s a c t rest)) (inr refl)

after_remove :
    (fuel : ℕ) (path : FilePath) (m : Monitor) (xs : Cells) (h : Holds m xs) (e : RemoveEnv)
    (s : FilePath)
    → e.buffer ≡ true
    → e.copy.left ≤ 4096
    → c_str e.copy.bytes ≡ some s
    → length xs < fuel
    → Returns
        (λ r m'.
          Returns
            (RightForOne path xs (erase_cell s xs) m')
            (finish_check fuel (some path) (some m.head) m'))
        (remove_from_blacklist fuel e m)
after_remove fuel path m [] h e s buf small str lt =
    Returns-mono (Removed m [] s) _ (remove_from_blacklist fuel e m)
      (remove_from_blacklist-Removed fuel e m [] s h buf small str lt)
      (λ r m' re.
        from_head fuel path m [] h m' (erase_cell s []) [] tt re.3 lt h.list.head (inl refl))
after_remove fuel path m ((c, t) ∷ rest) h e s buf small str lt = elim (Bool-cases (str_eq t s)) [
  | inl hit ↦
      rw (remove_from_blacklist-first fuel e m ((c, t) ∷ rest) s c t rest h buf small str hit) (
        from_head fuel path m ((c, t) ∷ rest) h _ (erase_cell s ((c, t) ∷ rest)) ((c, t) ∷ rest)
          h.list.chain refl lt h.list.head (inl refl))
  | inr miss ↦
      let zs : Cells = erase_cell s ((c, t) ∷ rest) in
      let short = length-erase_cell-le s ((c, t) ∷ rest) in
      Returns-mono (Removed m ((c, t) ∷ rest) s) _ (remove_from_blacklist fuel e m)
        (remove_from_blacklist-Removed fuel e m ((c, t) ∷ rest) s h buf small str lt)
        (λ r m' re.
          from_head fuel path m ((c, t) ∷ rest) h m' zs zs re.1.chain re.3 (omega (arith, short))
            (h.list.head ∙ sym (start-erase_cell c t rest s miss)) (inr refl))
]

start_check-head : (m : Monitor) (curr : Ptr) → start_check m ≡ done (some curr) m → m.head ≡ curr
unfolding start_check
start_check-head m curr e = tests (m.size == 0) (eq_pos m.state 1 || eq_pos m.state 3) e
  where
    tests :
        (a b : Bool)
        → (if a then pure none else if b then pure none else pure (some m.head)) m
          ≡ done (some curr) m
        → m.head ≡ curr
    tests true b e = absurd (cc)
    tests false true e = absurd (cc)
    tests false false e = cc

-- An operation of another processor on the list `xs`, for which the kernel grants what is asked, and
-- the list that it leaves.
data ListChange (fuel : ℕ) (xs : Cells) : Cmd Monitor ℤ → Cells → Type 0 where
  adds :
      (e : AddEnv) (s : FilePath) (b : Block)
      → Granted e xs s b
      → b.stale ≡ null
      → ListChange fuel xs (add_to_blacklist fuel e) (with_path s b.address xs)
  removes :
      (e : RemoveEnv) (s : FilePath)
      → (e.buffer ≡ true) × (e.copy.left ≤ 4096) × (c_str e.copy.bytes ≡ some s)
      → ListChange fuel xs (remove_from_blacklist fuel e) (erase_cell s xs)

-- Let the monitor be well-formed, and the tests of `is_blacklisted` be passed and the head be read. Let
-- another processor then add or remove a path, before the lock is taken, with fuel for the list and one
-- more. The decision comes back, with the monitor as the other left it, and is right for the list
-- before or for the list after.
finish_check-RightForOne :
    (fuel : ℕ) (path : FilePath) (m : Monitor) (xs ys : Cells) (curr : Ptr) (edit : Cmd Monitor ℤ)
    → Holds m xs
    → start_check m ≡ done (some curr) m
    → ListChange fuel xs edit ys
    → length xs + 1 < fuel
    → Returns
        (λ r m'. Returns (RightForOne path xs ys m') (finish_check fuel (some path) (some curr) m'))
        (edit m)
finish_check-RightForOne fuel path m xs ys curr _ h tested (adds e s b g st) lt =
    subst
      (λ z.
        Returns
          (λ r m'.
            Returns (RightForOne path xs (with_path s b.address xs) m')
              (finish_check fuel (some path) (some z) m'))
          (add_to_blacklist fuel e m))
      (start_check-head m curr tested)
      (Returns-mono (Added m xs s b.address) _ (add_to_blacklist fuel e m)
        (add_to_blacklist-Added fuel e m xs s b h g st (omega arith))
        (λ r m' ad. after_add fuel path m xs h s b.address r m' ad lt))
finish_check-RightForOne fuel path m xs ys curr _ h tested (removes e s (buf, small, str)) lt =
    subst
      (λ z.
        Returns
          (λ r m'.
            Returns (RightForOne path xs (erase_cell s xs) m')
              (finish_check fuel (some path) (some z) m'))
          (remove_from_blacklist fuel e m))
      (start_check-head m curr tested)
      (after_remove fuel path m xs h e s buf small str (omega arith))

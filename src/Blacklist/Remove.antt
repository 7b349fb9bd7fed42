-- ===== src/Blacklist/Remove.antt =====
-- `remove_from_blacklist` on every path through it.
pub mod Spares
pub mod Stops
pub mod Errors
use reference_monitor.Base.{
  Bool, Bool-cases, List, [], ap, arith, false, if◌then◌else◌, inl, inr, length, refl, some, subst,
  subst₂, suc, sym, true, zero, ℕ, ◌%◌, ◌+◌, ◌-◌, ◌<◌, ◌==◌, ◌^◌, ◌∙◌, ◌∷◌, ◌≡◌, ◌≤◌,
}
use reference_monitor.Base.Int.{einval, pos, ℤ}
use reference_monitor.Blacklist.{
  RemoveEnv, is_minus_one, remove_from_blacklist, search_loop, unlink,
}
use reference_monitor.CString.{c_str, str_eq}
use reference_monitor.Monitor.{
  FilePath, Monitor, Nodes, Ptr, null, set_head, shrink, spin_lock, spin_unlock,
}
use reference_monitor.Monitor.Chain.{Cells, Chain, IsList, load_lem, paths, set_next_lem, start}
use reference_monitor.Monitor.Edit.{
  Chain-unlink_after, contains, contains_hit, contains_miss, erase_cell, erase_cell-absent,
  erase_cell_hit, erase_cell_miss, unlink_after,
}
use reference_monitor.Monitor.Invariant.{Holds}
use reference_monitor.Run.{Returns, Run, done}

-- The list after `s` is taken out, or all of it if `s` is not there.
abbrev RemovedAs : Bool → Monitor → Cells → FilePath → ℕ → ℤ → Monitor → Type 0
RemovedAs known m xs s size r m' =
    (r ≡ (if known then pos 0 else einval))
    × IsList m' (erase_cell s xs)
    × (m'.size ≡ size)
    × (m'.locked ≡ false)
    × (m'.state ≡ m.state)
    × (m'.password ≡ m.password)

-- `blacklist_size` after a removal: it goes down by one only if the path stood first.
unfoldable pub size_after : FilePath → List FilePath → ℕ → ℕ
size_after s [] n = n
size_after s (t ∷ ts) n = if str_eq t s then (n + 2 ^ 32 - 1) % 2 ^ 32 else n

-- What `remove_from_blacklist` leaves of the list `xs` when it is asked to remove `s`.
abbrev pub Removed : Monitor → Cells → FilePath → ℤ → Monitor → Type 0
Removed m xs s = RemovedAs (contains s (paths xs)) m xs s (size_after s (paths xs) m.size)

abbrev outcome : Monitor → Bool → Nodes → Run Monitor ℤ
outcome m known h =
    if known
    then done (pos 0) (record m { locked = false; nodes = h })
    else done einval (record m { locked = false })

module _ (s : FilePath) where
  search_loop_lem :
      (fuel : ℕ) (p : Ptr) (u : FilePath) (xs : Cells) (m : Monitor)
      → Chain m.nodes ((p, u) ∷ xs)
      → m.locked ≡ true
      → length xs < fuel
      → search_loop fuel p (start null xs) s m
        ≡ outcome m (contains s (paths xs)) (unlink_after m.nodes p u xs s)
  unfolding search_loop contains unlink_after spin_unlock
  search_loop_lem zero p u xs m ch lk lt = absurd (omega arith)
  search_loop_lem (suc k) p u [] m ch lk lt = rw lk
  search_loop_lem (suc k) p u ((c, t) ∷ rest) m ch lk lt =
      let more : (c == null) ≡ false = ground (arith, (ch.3).0) in
      rw (more, load_lem m c t (start null rest) (ch.3).0 (ch.3).1)
        (elim (Bool-cases (str_eq t s)) [
          | inl hit ↦ rw (hit, set_next_lem m p u c (start null rest) ch.0 ch.1, lk)
          | inr miss ↦ rw miss (search_loop_lem k c t rest m ch.3 lk (omega arith))
        ])

module _ (s : FilePath) (m : Monitor) (t : FilePath) (rest : Cells) where
  unlink_first :
      (fuel : ℕ)
      → Chain m.nodes ((m.head, t) ∷ rest)
      → m.locked ≡ false
      → str_eq t s ≡ true
      → unlink fuel s m
        ≡ done (pos 0) (record m {
          head = start null rest;
          size = (m.size + 2 ^ 32 - 1) % 2 ^ 32;
          locked = false;
        })
  unfolding unlink spin_lock spin_unlock set_head shrink
  unlink_first fuel ch un hit =
      let some_head : (m.head == null) ≡ false = ground (arith, ch.0) in
      rw (
        un,
        some_head,
        load_lem (record m { locked = true }) m.head t (start null rest) ch.0 ch.1,
        hit,
      )

  unlink_later :
      (fuel : ℕ)
      → Chain m.nodes ((m.head, t) ∷ rest)
      → m.locked ≡ false
      → str_eq t s ≡ false
      → length rest < fuel
      → unlink (suc fuel) s m
        ≡ outcome m (contains s (paths rest)) (unlink_after m.nodes m.head t rest s)
  unfolding unlink spin_lock
  unlink_later fuel ch un miss lt =
      let some_head : (m.head == null) ≡ false = ground (arith, ch.0) in
      let loaded = load_lem (record m { locked = true }) m.head t (start null rest) ch.0 ch.1 in
      rw (un, some_head, loaded, miss, search_loop, loaded, miss)
        (search_loop_lem s fuel m.head t rest (record m { locked = true }) ch refl lt)

  outcome-RemovedAs :
      (known : Bool)
      → Chain m.nodes ((m.head, t) ∷ rest)
      → str_eq t s ≡ false
      → known ≡ contains s (paths rest)
      → Returns
          (RemovedAs known m ((m.head, t) ∷ rest) s m.size)
          (outcome m known (unlink_after m.nodes m.head t rest s))
  outcome-RemovedAs true ch miss e =
      let kept = sym (erase_cell_miss m.head t rest s miss) in
      (
        refl,
        record {
          head = subst (λ ys. m.head ≡ start null ys) kept refl;
          chain =
              subst (Chain (unlink_after m.nodes m.head t rest s)) kept
                (Chain-unlink_after m.nodes m.head t rest s ch);
        },
        refl,
        refl,
        refl,
        refl,
      )
  outcome-RemovedAs false ch miss e =
      let kept = sym (
        erase_cell_miss m.head t rest s miss
        ∙ ap (λ ys. (m.head, t) ∷ ys) (erase_cell-absent s rest (sym e))) in
      (
        refl,
        record {
          head = subst (λ ys. m.head ≡ start null ys) kept refl;
          chain = subst (Chain m.nodes) kept ch;
        },
        refl,
        refl,
        refl,
        refl,
      )

module _ (s : FilePath) (t : FilePath) (ts : List FilePath) (n : ℕ) where
  size_after_hit : str_eq t s ≡ true → size_after s (t ∷ ts) n ≡ (n + 2 ^ 32 - 1) % 2 ^ 32
  unfolding size_after
  size_after_hit e = rw e

  size_after_miss : str_eq t s ≡ false → size_after s (t ∷ ts) n ≡ n
  unfolding size_after
  size_after_miss e = rw e

module _ (s : FilePath) where
  unlink_cons-Removed :
      (fuel : ℕ) (m : Monitor) (t : FilePath) (rest : Cells)
      → Chain m.nodes ((m.head, t) ∷ rest)
      → m.locked ≡ false
      → length rest < fuel
      → Returns (Removed m ((m.head, t) ∷ rest) s) (unlink (suc fuel) s m)
  unlink_cons-Removed fuel m t rest ch un lt = elim (Bool-cases (str_eq t s)) [
    | inl hit ↦
        let kept = sym (erase_cell_hit m.head t rest s hit) in
        rw (unlink_first s m t rest (suc fuel) ch un hit) (
          rw (contains_hit s t (paths rest) hit),
          record {
            head = subst (λ ys. start null rest ≡ start null ys) kept refl;
            chain = subst (Chain m.nodes) kept ch.3;
          },
          rw (size_after_hit s t (paths rest) m.size hit),
          refl,
          refl,
          refl,
        )
    | inr miss ↦ rw (unlink_later s m t rest fuel ch un miss lt) (
        subst₂
          (λ k n.
            Returns (RemovedAs k m ((m.head, t) ∷ rest) s n)
              (outcome m (contains s (paths rest)) (unlink_after m.nodes m.head t rest s)))
          (sym (contains_miss s t (paths rest) miss))
          (sym (size_after_miss s t (paths rest) m.size miss))
          (outcome-RemovedAs s m t rest (contains s (paths rest)) ch miss refl))
  ]

  unlink-Removed :
      (fuel : ℕ) (m : Monitor) (xs : Cells)
      → IsList m xs
      → m.locked ≡ false
      → length xs < fuel
      → Returns (Removed m xs s) (unlink fuel s m)
  unfolding unlink contains erase_cell size_after spin_lock spin_unlock
  unlink-Removed zero m xs is un lt = absurd (omega arith)
  unlink-Removed (suc fuel) m [] is un lt =
      rw (un, is.head) (refl, record { head = refl; chain = tt }, refl, refl, refl, refl)
  unlink-Removed (suc fuel) m ((c, t) ∷ rest) is un lt =
      subst
        (λ z.
          Chain m.nodes ((z, t) ∷ rest)
          → Returns (Removed m ((z, t) ∷ rest) s) (unlink (suc fuel) s m))
        is.head (λ ch. unlink_cons-Removed fuel m t rest ch un (omega arith)) is.chain

module _ (fuel : ℕ) (e : RemoveEnv) (m : Monitor) (xs : Cells) (s : FilePath) where
  -- From a well-formed monitor whose list has fewer than `fuel` nodes, when the buffer is given and
  -- the path `s` is copied, `remove_from_blacklist` returns: a path of the list is taken out at its
  -- first occurrence, with 0, and any other gets -EINVAL and changes nothing of the list. The
  -- count goes down only if the path stood first. The lock is free again, state and password are
  -- as they were.
  pub remove_from_blacklist-Removed :
      Holds m xs
      → e.buffer ≡ true
      → e.copy.left ≤ 4096
      → c_str e.copy.bytes ≡ some s
      → length xs < fuel
      → Returns (Removed m xs s) (remove_from_blacklist fuel e m)
  unfolding remove_from_blacklist
  remove_from_blacklist-Removed h buf small str lt =
      let got : is_minus_one e.copy.left ≡ false = ground (arith, small) in
      rw (buf, got, str, remove_from_blacklist) (unlink-Removed s fuel m xs h.list h.unlocked lt)

  -- When the path stands first, only the head and the count change; the node stays in memory.
  pub remove_from_blacklist-first :
      (c : Ptr) (t : FilePath) (rest : Cells)
      → Holds m ((c, t) ∷ rest)
      → e.buffer ≡ true
      → e.copy.left ≤ 4096
      → c_str e.copy.bytes ≡ some s
      → str_eq t s ≡ true
      → remove_from_blacklist fuel e m
        ≡ done (pos 0) (record m {
          head = start null rest;
          size = (m.size + 2 ^ 32 - 1) % 2 ^ 32;
          locked = false;
        })
  unfolding remove_from_blacklist
  remove_from_blacklist-first c t rest h buf small str hit =
      let got : is_minus_one e.copy.left ≡ false = ground (arith, small) in
      rw (buf, got, str, remove_from_blacklist)
        (subst
          (λ z.
            Chain m.nodes ((z, t) ∷ rest)
            → unlink fuel s m
              ≡ done (pos 0) (record m {
                head = start null rest;
                size = (m.size + 2 ^ 32 - 1) % 2 ^ 32;
                locked = false;
              }))
          h.list.head (λ ch. unlink_first s m t rest fuel ch h.unlocked hit) h.list.chain)

-- ===== src/Blacklist/Remove/Spares.antt =====
-- The memory that a removal leaves alone: nodes that are not in the list.
use reference_monitor.Base.{
  Bool, Bool-cases, [], arith, false, inl, inr, length, refl, some, subst, suc, true, zero, ℕ, ◌<◌,
  ◌∷◌, ◌≡◌, ◌≤◌,
}
use reference_monitor.Blacklist.{RemoveEnv, is_minus_one, remove_from_blacklist, unlink}
use reference_monitor.Blacklist.Remove.{outcome, unlink_first, unlink_later}
use reference_monitor.CString.{c_str, str_eq}
use reference_monitor.Monitor.{FilePath, Monitor, Ptr, spin_lock, spin_unlock}
use reference_monitor.Monitor.Chain.{Cells, Chain, IsList, has, paths}
use reference_monitor.Monitor.Edit.{contains, unlink_after, unlink_after-same}
use reference_monitor.Monitor.Invariant.{Holds}
use reference_monitor.Run.{Returns}

module _ (s : FilePath) where
  outcome-same :
      (known : Bool) (m : Monitor) (c : Ptr) (t : FilePath) (rest : Cells)
      → Returns
          (λ r m'. (a : Ptr) → has a ((c, t) ∷ rest) ≡ false → m'.nodes a ≡ m.nodes a)
          (outcome m known (unlink_after m.nodes c t rest s))
  outcome-same true m c t rest = λ a out. unlink_after-same m.nodes c t rest s a out
  outcome-same false m c t rest = λ a out. refl

  unlink-Spares :
      (fuel : ℕ) (m : Monitor) (xs : Cells)
      → IsList m xs
      → m.locked ≡ false
      → length xs < fuel
      → Returns (λ r m'. (a : Ptr) → has a xs ≡ false → m'.nodes a ≡ m.nodes a) (unlink fuel s m)
  unfolding unlink spin_lock spin_unlock
  unlink-Spares zero m xs is un lt = absurd (omega arith)
  unlink-Spares (suc fuel) m [] is un lt = rw (un, is.head) (λ a out. refl)
  unlink-Spares (suc fuel) m ((c, t) ∷ rest) is un lt =
      subst
        (λ z.
          Chain m.nodes ((z, t) ∷ rest)
          → Returns (λ r m'. (a : Ptr) → has a ((z, t) ∷ rest) ≡ false → m'.nodes a ≡ m.nodes a)
              (unlink (suc fuel) s m))
        is.head
        (λ ch. elim (Bool-cases (str_eq t s)) [
          | inl hit ↦ rw (unlink_first s m t rest (suc fuel) ch un hit) (λ a out. refl)
          | inr miss ↦
              rw (unlink_later s m t rest fuel ch un miss (omega arith))
                (outcome-same (contains s (paths rest)) m m.head t rest)
        ])
        is.chain

-- From a well-formed monitor, `remove_from_blacklist` writes to nodes of the list only.
pub remove_from_blacklist-Spares :
    (fuel : ℕ) (e : RemoveEnv) (m : Monitor) (xs : Cells) (s : FilePath)
    → Holds m xs
    → e.buffer ≡ true
    → e.copy.left ≤ 4096
    → c_str e.copy.bytes ≡ some s
    → length xs < fuel
    → Returns
        (λ r m'. (a : Ptr) → has a xs ≡ false → m'.nodes a ≡ m.nodes a)
        (remove_from_blacklist fuel e m)
unfolding remove_from_blacklist
remove_from_blacklist-Spares fuel e m xs s h buf small str lt =
    let got : is_minus_one e.copy.left ≡ false = ground (arith, small) in
    rw (buf, got, str, remove_from_blacklist) (unlink-Spares s fuel m xs h.list h.unlocked lt)

-- ===== src/Blacklist/Remove/Stops.antt =====
-- The search of `remove_from_blacklist` ends by its own test.
use reference_monitor.Base.{
  Bool-cases, Option-cases, [], arith, false, inl, inr, length, refl, subst, suc, zero, ℕ, ◌<◌, ◌∷◌,
  ◌≡◌,
}
use reference_monitor.Blacklist.{RemoveEnv, is_minus_one, remove_from_blacklist, unlink}
use reference_monitor.Blacklist.Remove.{unlink_first, unlink_later}
use reference_monitor.CString.{c_str, str_eq}
use reference_monitor.Monitor.{FilePath, Monitor, spin_lock, spin_unlock}
use reference_monitor.Monitor.Chain.{Cells, Chain, IsList, paths}
use reference_monitor.Monitor.Edit.{contains}
use reference_monitor.Monitor.Invariant.{Holds}
use reference_monitor.Run.{Settled}

module _ (fuel fuel' : ℕ) where
  unlink_cons-Settled :
      (s : FilePath) (m : Monitor) (t : FilePath) (rest : Cells)
      → Chain m.nodes ((m.head, t) ∷ rest)
      → m.locked ≡ false
      → length rest < fuel
      → length rest < fuel'
      → Settled (unlink (suc fuel) s m) (unlink (suc fuel') s m)
  unlink_cons-Settled s m t rest ch un lt lt' = elim (Bool-cases (str_eq t s)) [
    | inl hit ↦
        rw
          (
            unlink_first s m t rest (suc fuel) ch un hit,
            unlink_first s m t rest (suc fuel') ch un hit,
          )
          (refl, refl)
    | inr miss ↦
        rw
          (unlink_later s m t rest fuel ch un miss lt, unlink_later s m t rest fuel' ch un miss lt')
          (
            refl,
            elim (Bool-cases (contains s (paths rest))) [ inl old ↦ rw old | inr new ↦ rw new ],
          )
  ]

unlink-Settled :
    (fuel fuel' : ℕ) (s : FilePath) (m : Monitor) (xs : Cells)
    → IsList m xs
    → m.locked ≡ false
    → length xs < fuel
    → length xs < fuel'
    → Settled (unlink fuel s m) (unlink fuel' s m)
unfolding unlink spin_lock spin_unlock
unlink-Settled zero fuel' s m xs is un lt lt' = absurd (omega arith)
unlink-Settled (suc k) zero s m xs is un lt lt' = absurd (omega arith)
unlink-Settled (suc k) (suc k') s m [] is un lt lt' = rw (un, is.head) (refl, refl)
unlink-Settled (suc k) (suc k') s m ((c, t) ∷ rest) is un lt lt' =
    subst (λ z. Chain m.nodes ((z, t) ∷ rest) → Settled (unlink (suc k) s m) (unlink (suc k') s m))
      is.head (λ ch. unlink_cons-Settled k k' s m t rest ch un (omega arith) (omega arith)) is.chain

-- On a well-formed monitor `remove_from_blacklist` comes to the same end on every fuel above the
-- length of the list.
pub remove_from_blacklist-Settled :
    (fuel fuel' : ℕ) (e : RemoveEnv) (m : Monitor) (xs : Cells)
    → Holds m xs
    → length xs < fuel
    → length xs < fuel'
    → Settled (remove_from_blacklist fuel e m) (remove_from_blacklist fuel' e m)
unfolding remove_from_blacklist
remove_from_blacklist-Settled fuel fuel' e m xs h lt lt' = elim (Bool-cases e.buffer) [
  | inr b ↦ rw b (refl, refl)
  | inl b ↦ elim (Bool-cases (is_minus_one e.copy.left)) [
    | inl c ↦ rw (b, c) (refl, refl)
    | inr c ↦ elim (Option-cases (c_str e.copy.bytes)) [
      | inl d ↦ rw (b, c, d) (refl, refl)
      | inr (s, d) ↦
          rw (b, c, d, remove_from_blacklist)
            (unlink-Settled fuel fuel' s m xs h.list h.unlocked lt lt')
    ]
  ]
]

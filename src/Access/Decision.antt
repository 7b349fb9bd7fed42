-- ===== src/Access/Decision.antt =====
-- What `is_blacklisted` decides.
use reference_monitor.Base.{
  ==_iff, Bool, Bool-cases, [], arith, false, if◌then◌else◌, inl, inr, length, not, refl, some,
  subst, suc, sym, true, zero, ℕ, ◌&&◌, ◌++◌, ◌-◌, ◌<◌, ◌==◌, ◌||◌, ◌↔◌, ◌∙◌, ◌∷◌, ◌≡◌,
}
use reference_monitor.Access.{finish_check, is_blacklisted, scan, slash}
use reference_monitor.Access.Cover.{
  Covers, covered, covered-append, covered_by, covered_iff, matches,
}
use reference_monitor.Base.Int.{eq_pos, ℤ}
use reference_monitor.CString.{ends_with, strncmp_eq}
use reference_monitor.DentryPath.{NoZero, PathEnv, get_path_from_dentry, get_path_from_dentry_lem}
use reference_monitor.Monitor.{FilePath, Monitor, null, spin_lock, spin_unlock}
use reference_monitor.Monitor.Chain.{Cells, Chain, load_lem, paths, start}
use reference_monitor.Monitor.Edit.{contains}
use reference_monitor.Monitor.Invariant.{Holds}
use reference_monitor.Run.{done, pure}

-- The states in which paths are protected: neither RF_OFF nor RF_REC_OFF.
unfoldable pub is_active : ℤ → Bool
is_active state = not (eq_pos state 1 || eq_pos state 3)

abbrev pub verdict : Bool → ℕ
verdict b = if b then 1 else 0

-- From the lock held at the node where the scan stands.
scan_lem :
    (fuel : ℕ) (path : FilePath) (xs : Cells) (m : Monitor)
    → Chain m.nodes xs
    → m.locked ≡ true
    → length xs < fuel
    → scan fuel (some path) (start null xs) m
      ≡ done (verdict (covered path (paths xs))) (record m { locked = false })
unfolding scan covered matches spin_unlock
scan_lem zero path xs m ch lk lt = absurd (omega arith)
scan_lem (suc k) path [] m ch lk lt = rw lk
scan_lem (suc k) path ((c, t) ∷ rest) m ch lk lt =
    let more : (c == null) ≡ false = ground (arith, ch.0) in
    let ih = scan_lem k path rest m ch.3 lk (omega arith) in
    rw (more, load_lem m c t (start null rest) ch.0 ch.1)
      (elim (Bool-cases (strncmp_eq path t (length t))) [
        | inl e ↦ rw (e, lk)
        | inr e ↦ elim (Bool-cases (ends_with t slash)) [
          | inl f ↦ elim (Bool-cases (strncmp_eq path t (length t - 1))) [
            | inl g ↦ rw (e, f, g, lk)
            | inr g ↦ rw (e, f, g) ih
          ]
          | inr f ↦ rw (e, f) ih
        ]
      ])

-- The second part alone, from any node at which a chain starts.
pub finish_check_lem :
    (fuel : ℕ) (path : FilePath) (xs : Cells) (m : Monitor)
    → Chain m.nodes xs
    → m.locked ≡ false
    → length xs < fuel
    → finish_check fuel (some path) (some (start null xs)) m
      ≡ done (verdict (covered path (paths xs))) (record m { locked = false })
unfolding finish_check spin_lock
finish_check_lem fuel path xs m ch un lt =
    rw un (scan_lem fuel path xs (record m { locked = true }) ch refl lt)

verdict_said : (m : Monitor) (b : Bool) → pure {S = Monitor} (verdict b) m ≡ done 1 m → b ≡ true
verdict_said m true e = refl
verdict_said m false e = cc

pub covered_none : (path : FilePath) → covered path [] ≡ false
unfolding covered
covered_none path = refl

-- The shortcut for an empty list does not lie: where the count is 0, the list is empty.
paths_of_size : (m : Monitor) (xs : Cells) → Holds m xs → m.size ≡ 0 → paths xs ≡ []
paths_of_size m [] h e = refl
paths_of_size m (x ∷ xs) h e = absurd (omega (arith, h.counted))

module _ (fuel : ℕ) (m : Monitor) (xs : Cells) (h : Holds m xs) (lt : length xs < fuel) where
  -- On a well-formed monitor, with fuel for its list, `is_blacklisted` comes back with the monitor
  -- as it was; its result is 1 if the state is neither RF_OFF nor RF_REC_OFF and the test covers
  -- the path, and 0 otherwise.
  pub is_blacklisted_lem :
      (path : FilePath)
      → is_blacklisted fuel (some path) m
        ≡ done (verdict (is_active m.state && covered path (paths xs))) m
  unfolding is_blacklisted is_active spin_lock
  is_blacklisted_lem path = elim (Bool-cases (m.size == 0)) [
    | inl z ↦
        let empty = paths_of_size m xs h ((==_iff m.size 0).0 z) in
        let free : covered path (paths xs) ≡ false = rw empty (covered_none path) in
        rw z (ground (arith, free))
    | inr z ↦ elim (Bool-cases (eq_pos m.state 1 || eq_pos m.state 3)) [
      | inl o ↦ rw (z, o)
      | inr o ↦
          rw (z, o, h.unlocked)
            (subst
              (λ p.
                scan fuel (some path) p (record m { locked = true })
                ≡ done (verdict (covered path (paths xs))) (record m { locked = false }))
              (sym h.list.head)
              (scan_lem fuel path xs (record m { locked = true }) h.list.chain refl lt))
    ]
  ]

  -- On a well-formed monitor, with fuel for its list, `is_blacklisted` says 1 of a path, with the
  -- monitor as it was, exactly if the state is neither RF_OFF nor RF_REC_OFF and some path of the
  -- list covers this one.
  pub is_blacklisted_iff :
      (path : FilePath)
      → (is_blacklisted fuel (some path) m ≡ done 1 m) ↔ (
          (is_active m.state ≡ true)
          × (s : FilePath) × (contains s (paths xs) ≡ true)
          × Covers s path)
  is_blacklisted_iff path = (
    λ e.
        let both : (is_active m.state && covered path (paths xs)) ≡ true = said e in
        let (s, i, c) = (covered_iff path (paths xs)).0 (ground arith) in (ground arith, s, i, c),
    λ (a, s, i, c).
        let hit = covered_by path s (paths xs) i c in is_blacklisted_lem path ∙ rw (a, hit),
  )
    where
      said :
          is_blacklisted fuel (some path) m ≡ done 1 m
          → (is_active m.state && covered path (paths xs)) ≡ true
      said e =
          verdict_said m (is_active m.state && covered path (paths xs))
            (sym (is_blacklisted_lem path) ∙ e)

  -- When the kernel gives a probe the memory and the path `s` of its object, and `s` is covered in
  -- a protecting state, the decision on the result of `get_path_from_dentry` is 1, whatever byte
  -- that result has at its end.
  pub is_blacklisted-get_path :
      (e : PathEnv) (s : FilePath)
      → e.page ≡ true
      → e.raw ≡ some s
      → e.buffer ≡ true
      → NoZero s
      → is_active m.state ≡ true
      → covered s (paths xs) ≡ true
      → is_blacklisted fuel (get_path_from_dentry e) m ≡ done 1 m
  is_blacklisted-get_path e s pg raw bf nz act cov =
      rw (get_path_from_dentry_lem e s pg raw bf nz) (elim (Bool-cases (e.junk == 0)) [
        | inl z ↦ rw z (is_blacklisted_lem s ∙ rw (act, cov))
        | inr z ↦
            let more = covered-append s (e.junk ∷ []) (paths xs) cov in
            rw z (is_blacklisted_lem (s ++ e.junk ∷ []) ∙ rw (act, more))
      ])

-- ===== src/Probes/Mediation.antt =====
-- Which calls the ten handlers let pass, each by the decisions on the paths that it is shown.
use reference_monitor.Base.{
  Bool, Bool-cases, List, String, [], arith, codes, if◌then◌else◌, inl, inr, length, length-append,
  ltb, refl, some, true, ℕ, ◌&&◌, ◌++◌, ◌+◌, ◌<◌, ◌||◌, ◌∷◌, ◌≡◌, ◌≤◌,
}
use reference_monitor.Access.Cover.{covered}
use reference_monitor.Access.Decision.{is_active, is_blacklisted_lem}
use reference_monitor.Monitor.{FilePath, Monitor}
use reference_monitor.Monitor.Chain.{Cells, paths}
use reference_monitor.Monitor.Invariant.{Holds}
use reference_monitor.Probes.{Entry, block, guard_path, guard_paths, message_of}
use reference_monitor.Run.{Returns}

-- Whether a well-formed monitor with the list `xs` protects a path.
unfoldable pub protects : Monitor → Cells → FilePath → Bool
protects m xs p = is_active m.state && covered p (paths xs)

-- The handler's verdict: 0 has the call refused, 1 lets it pass.
abbrev pub ret_for : Bool → ℕ
ret_for b = if b then 0 else 1

abbrev pub Says : Monitor → Bool → Entry → Monitor → Type 0
Says m b r m' = (r.ret ≡ ret_for b) × (m' ≡ m)

message-length :
    (what : String) (p : FilePath)
    → length (message_of what (some p)) ≡ 43 + length (codes what) + length p
unfolding message_of
message-length what p =
    let tail : List ℕ = codes " blocked" ++ 10 ∷ [] in
    omega (arith, length-append p tail, length-append (codes what) (32 ∷ (p ++ tail)))

module _ (fuel : ℕ) (m : Monitor) (xs : Cells) (h : Holds m xs) (lt : length xs < fuel) where
  pub block_lem :
      (what : String) (p : FilePath) (dup : Bool)
      → length (codes what) ≤ 16
      → length p ≤ 190
      → Returns (Says m true) (block what (some p) dup m)
  unfolding block
  block_lem what p dup short fits =
      let room : ltb (length (message_of what (some p))) 256 ≡ true =
        ground (arith, message-length what p) in
      rw room (refl, refl)

  pub guard_path_lem :
      (what : String) (p : FilePath) (dup : Bool)
      → length (codes what) ≤ 16
      → length p ≤ 190
      → Returns (Says m (protects m xs p)) (guard_path what fuel (some p) dup m)
  unfolding guard_path protects
  guard_path_lem what p dup short fits =
      rw (is_blacklisted_lem fuel m xs h lt p)
        (elim (Bool-cases (is_active m.state && covered p (paths xs))) [
          | inl e ↦ rw e (block_lem what p dup short fits)
          | inr e ↦ rw e (refl, refl)
        ])

  pub guard_paths_lem :
      (what what' : String) (p p' : FilePath) (dup : Bool)
      → length (codes what) ≤ 16
      → length (codes what') ≤ 16
      → length p ≤ 190
      → length p' ≤ 190
      → Returns
          (Says m (protects m xs p || protects m xs p'))
          (guard_paths what what' fuel (some p) (some p') dup m)
  unfolding guard_paths protects
  guard_paths_lem what what' p p' dup short short' fits fits' =
      rw (is_blacklisted_lem fuel m xs h lt p)
        (elim (Bool-cases (is_active m.state && covered p (paths xs))) [
          | inl e ↦ rw e (block_lem what p dup short fits)
          | inr e ↦ rw e (guard_path_lem what' p' dup short' fits')
        ])

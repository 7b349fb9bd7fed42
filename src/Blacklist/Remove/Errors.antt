-- ===== src/Blacklist/Remove/Errors.antt =====
-- What `remove_from_blacklist` answers, whatever the kernel answers.
-- The path was removed or not found, or all is as it was in `m`.
use reference_monitor.Base.{
  Bool, Bool-cases, Option-cases, false, if◌then◌else◌, inl, inr, length, refl, true, ℕ, ◌<◌, ◌≡◌,
  ◌⊎◌,
}
use reference_monitor.Base.Int.{einval, pos, ℤ}
use reference_monitor.Blacklist.{RemoveEnv, is_minus_one, remove_from_blacklist, unlink}
use reference_monitor.Blacklist.Remove.{Removed, unlink-Removed}
use reference_monitor.CString.{c_str}
use reference_monitor.Monitor.{FilePath, Monitor}
use reference_monitor.Monitor.Chain.{Cells, paths}
use reference_monitor.Monitor.Edit.{contains}
use reference_monitor.Monitor.Invariant.{Holds}
use reference_monitor.Run.{IfDone, Returns, Run, done, fault}

abbrev pub AnsweredOrKept : Monitor → ℤ → Monitor → Type 0
AnsweredOrKept m r m' = (r ≡ pos 0) ⊎ (r ≡ einval) ⊎ (m' ≡ m)

Removed-AnsweredOrKept :
    (m : Monitor) (xs : Cells) (s : FilePath) (r : Run Monitor ℤ)
    → Returns (Removed m xs s) r
    → IfDone (AnsweredOrKept m) r
Removed-AnsweredOrKept m xs s (done r m') re = code (contains s (paths xs)) re.0
  where
    code : (known : Bool) → r ≡ (if known then pos 0 else einval) → AnsweredOrKept m r m'
    code true e = inl e
    code false e = inr (inl e)
Removed-AnsweredOrKept m xs s (fault f) re = tt

-- Of a well-formed monitor, with fuel for the list.
pub remove_from_blacklist-IfDone :
    (fuel : ℕ) (e : RemoveEnv) (m : Monitor) (xs : Cells)
    → Holds m xs
    → length xs < fuel
    → IfDone (AnsweredOrKept m) (remove_from_blacklist fuel e m)
unfolding remove_from_blacklist
remove_from_blacklist-IfDone fuel e m xs h lt = elim (Bool-cases e.buffer) [
  | inr b ↦ rw b (inr (inr refl))
  | inl b ↦ elim (Bool-cases (is_minus_one e.copy.left)) [
    | inl c ↦ rw (b, c) (inr (inr refl))
    | inr c ↦ elim (Option-cases (c_str e.copy.bytes)) [
      | inl d ↦ rw (b, c, d) tt
      | inr (s, d) ↦
          rw (b, c, d, remove_from_blacklist)
            (Removed-AnsweredOrKept m xs s (unlink fuel s m)
              (unlink-Removed s fuel m xs h.list h.unlocked lt))
    ]
  ]
]

-- ===== src/Probes/Decides.antt =====
-- The registered probes decide by the monitor alone.
use reference_monitor.Base.{
  All, All-get_elem?, Bool, Bool-cases, String, arith, codes, get_elem?, inl, inr, length, refl,
  some, ℕ, ◌&&◌, ◌<◌, ◌||◌, ◌≡◌, ◌≤◌,
}
use reference_monitor.Access.Cover.{covered}
use reference_monitor.Access.Decision.{is_active, is_blacklisted_lem}
use reference_monitor.DentryPath.{get_path_from_dentry}
use reference_monitor.Monitor.{FilePath, Monitor}
use reference_monitor.Monitor.Chain.{Cells, paths}
use reference_monitor.Monitor.Invariant.{Holds}
use reference_monitor.Probes.{
  Request, guard_path, guard_paths, inode_create_entry_handler, inode_link_entry_handler,
  inode_mkdir_entry_handler, inode_rename_entry_handler, inode_rmdir_entry_handler,
  inode_symlink_entry_handler, inode_unlink_entry_handler, open_entry_handler,
  vfs_lseek_entry_handler, vfs_write_entry_handler, wants_write,
}
use reference_monitor.Probes.Mediation.{Says, block_lem, guard_path_lem, guard_paths_lem, protects}
use reference_monitor.Probes.Table.{
  Probe, Symbol, kprobe_array, security_file_open, security_inode_link, security_inode_rename,
  security_inode_rmdir,
}
use reference_monitor.Run.{Returns}

-- What the probe on a kernel function decides, from what the list says of the two paths that the
-- call names: an open is refused only with a flag that writes or creates; a link, a rename and the
-- removal of a directory are refused for either path; all else for the first path.
abbrev pub decision : Symbol → Bool → Bool → Bool → Bool
decision security_file_open w d d' = w && d
decision security_inode_link w d d' = d || d'
decision security_inode_rename w d d' = d || d'
decision security_inode_rmdir w d d' = d || d'
decision other w d d' = d

-- The kernel answers with the two paths, which are short enough for the message.
pub record Shown (q : Request) (p p' : FilePath) : Type 0 where
  pub object : get_path_from_dentry q.object ≡ some p
  pub other : get_path_from_dentry q.other ≡ some p'
  pub fits : length p ≤ 190
  pub other_fits : length p' ≤ 190

module _ (fuel : ℕ) (m : Monitor) (xs : Cells) (h : Holds m xs) (lt : length xs < fuel) where
  one_path :
      (what : String) (q : Request) (p p' : FilePath)
      → Shown q p p'
      → length (codes what) ≤ 16
      → Returns
          (Says m (protects m xs p))
          (guard_path what fuel (get_path_from_dentry q.object) q.dup m)
  one_path what q p p' sh short =
      rw sh.object (guard_path_lem fuel m xs h lt what p q.dup short sh.fits)

  two_paths :
      (what what' : String) (q : Request) (p p' : FilePath)
      → Shown q p p'
      → length (codes what) ≤ 16
      → length (codes what') ≤ 16
      → Returns (Says m (protects m xs p || protects m xs p')) (
          guard_paths what what' fuel
            (get_path_from_dentry q.object)
            (get_path_from_dentry q.other)
            q.dup
            m)
  two_paths what what' q p p' sh short short' =
      rw (sh.object, sh.other)
        (guard_paths_lem fuel m xs h lt what what' p p' q.dup short short' sh.fits sh.other_fits)

  open_lem :
      (q : Request) (p p' : FilePath)
      → Shown q p p'
      → Returns (Says m (wants_write q.flags && protects m xs p)) (open_entry_handler fuel q m)
  unfolding open_entry_handler
  open_lem q p p' sh = elim (Bool-cases (wants_write q.flags)) [
    | inl e ↦ rw e (one_path "vfs open on file" q p p' sh (omega arith))
    | inr e ↦ rw e (refl, refl)
  ]

  rmdir_lem :
      (q : Request) (p p' : FilePath)
      → Shown q p p'
      → Returns (Says m (protects m xs p || protects m xs p')) (inode_rmdir_entry_handler fuel q m)
  unfolding inode_rmdir_entry_handler protects
  rmdir_lem q p p' sh =
      rw (sh.object, sh.other, is_blacklisted_lem fuel m xs h lt p)
        (elim (Bool-cases (is_active m.state && covered p (paths xs))) [
          | inl e ↦ rw e (block_lem fuel m xs h lt "Rmdir on file" p q.dup (omega arith) sh.fits)
          | inr e ↦
              rw (e, is_blacklisted_lem fuel m xs h lt p')
                (elim (Bool-cases (is_active m.state && covered p' (paths xs))) [
                  | inl f ↦
                      rw f (block_lem fuel m xs h lt "Rmdir on file" p q.dup (omega arith) sh.fits)
                  | inr f ↦ rw f (refl, refl)
                ])
        ])

Decides : Probe → Type 0
Decides pr =
    (fuel : ℕ) (m : Monitor) (xs : Cells) (q : Request) (p p' : FilePath)
    → Holds m xs
    → length xs < fuel
    → Shown q p p'
    → Returns
        (Says m (decision pr.symbol (wants_write q.flags) (protects m xs p) (protects m xs p')))
        (pr.entry fuel q m)

array-Decides : All Decides kprobe_array
unfolding Decides kprobe_array inode_link_entry_handler inode_symlink_entry_handler
    inode_unlink_entry_handler inode_create_entry_handler inode_mkdir_entry_handler
    inode_rename_entry_handler vfs_write_entry_handler vfs_lseek_entry_handler
array-Decides = (
  λ fuel m xs q p p' h lt sh. open_lem fuel m xs h lt q p p' sh,
  (
    λ fuel m xs q p p' h lt sh. one_path fuel m xs h lt "Unlink on dir" q p p' sh (omega arith),
    (
      λ fuel m xs q p p' h lt sh. one_path fuel m xs h lt "Create on file" q p p' sh (omega arith),
      (
        λ fuel m xs q p p' h lt sh. one_path fuel m xs h lt "Mkdir on file" q p p' sh (omega arith),
        (
          λ fuel m xs q p p' h lt sh.
              two_paths fuel m xs h lt "Rename on dir" "Link on dir" q p p' sh (omega arith)
                (omega arith),
          (
            λ fuel m xs q p p' h lt sh. rmdir_lem fuel m xs h lt q p p' sh,
            (
              λ fuel m xs q p p' h lt sh.
                  two_paths fuel m xs h lt "Link on dir" "Link on dir" q p p' sh (omega arith)
                    (omega arith),
              (
                λ fuel m xs q p p' h lt sh.
                    one_path fuel m xs h lt "Unlink on dir" q p p' sh (omega arith),
                (
                  λ fuel m xs q p p' h lt sh.
                      one_path fuel m xs h lt "Write on file" q p p' sh (omega arith),
                  (
                    λ fuel m xs q p p' h lt sh.
                        one_path fuel m xs h lt "Lseek on file" q p p' sh (omega arith),
                    tt,
                  ),
                ),
              ),
            ),
          ),
        ),
      ),
    ),
  ),
)

-- The handler of each registered probe comes back with the monitor as it was. It returns 0 exactly
-- if the list, in a protecting state, says so of the paths that the probed function is called with,
-- by the rule `decision` of that function. The paths are those that `get_path_from_dentry` gives,
-- of at most 190 bytes.
pub kprobe_array-decision :
    (i : ℕ) (pr : Probe) (fuel : ℕ) (m : Monitor) (xs : Cells) (q : Request) (p p' : FilePath)
    → get_elem? kprobe_array i ≡ some pr
    → Holds m xs
    → length xs < fuel
    → Shown q p p'
    → Returns
        (Says m (decision pr.symbol (wants_write q.flags) (protects m xs p) (protects m xs p')))
        (pr.entry fuel q m)
unfolding Decides
kprobe_array-decision i pr fuel m xs q p p' at h lt sh =
    All-get_elem? Decides kprobe_array i pr array-Decides at fuel m xs q p p' h lt sh

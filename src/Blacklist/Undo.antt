-- ===== src/Blacklist/Undo.antt =====
-- A path that is added and removed again.
use reference_monitor.Base.{
  [], ap, arith, false, if◌then◌else◌, length, length-append, some, subst, true, ℕ, ◌++◌, ◌+◌, ◌<◌,
  ◌^◌, ◌∙◌, ◌∷◌, ◌≡◌, ◌≤◌,
}
use reference_monitor.Base.Int.{eexist, einval, pos}
use reference_monitor.Blacklist.{AddEnv, Block, RemoveEnv, add_to_blacklist, remove_from_blacklist}
use reference_monitor.Blacklist.Add.{Added, Granted, add_to_blacklist-Added}
use reference_monitor.Blacklist.Keeps.{Added-Holds}
use reference_monitor.Blacklist.Remove.{Removed, remove_from_blacklist-Removed, size_after}
use reference_monitor.Blacklist.Unique.{with_path-contains}
use reference_monitor.CString.{c_str, str_eq_refl}
use reference_monitor.Monitor.{FilePath, Monitor, Ptr, null}
use reference_monitor.Monitor.Chain.{Cells, IsList, paths}
use reference_monitor.Monitor.Edit.{contains, erase_cell}
use reference_monitor.Monitor.Invariant.{Holds}
use reference_monitor.Run.{Returns, Returns-mono}

erase_cell-snoc :
    (s : FilePath) (a : Ptr) (xs : Cells)
    → contains s (paths xs) ≡ false
    → erase_cell s (xs ++ (a, s) ∷ []) ≡ xs
unfolding contains erase_cell
erase_cell-snoc s a [] e = ground (arith, str_eq_refl s)
erase_cell-snoc s a ((c, t) ∷ xs) e = ground (arith, erase_cell-snoc s a xs)

-- The count after both: one too high, unless the list was empty.
abbrev pub size_left : Cells → ℕ → ℕ
size_left [] n = n
size_left (x ∷ xs) n = n + 1

size_after-snoc :
    (s : FilePath) (a : Ptr) (xs : Cells) (n : ℕ)
    → contains s (paths xs) ≡ false
    → n + 1 < 2 ^ 32
    → size_after s (paths (xs ++ (a, s) ∷ [])) (n + 1) ≡ size_left xs n
unfolding contains size_after
size_after-snoc s a [] n e lt = ground (arith, str_eq_refl s)
size_after-snoc s a ((c, t) ∷ xs) n e lt = ground arith

-- From a well-formed monitor whose list does not hold the path `s`, with room for one more and fuel
-- for the longer list: adding `s` and then removing it both come back with 0, and leave the very list
-- that there was, its nodes and their order included. The count is then as before only if the list
-- was empty, and else one higher.
pub add_to_blacklist-remove_from_blacklist :
    (fuel : ℕ) (e : AddEnv) (e' : RemoveEnv) (m : Monitor) (xs : Cells) (s : FilePath) (b : Block)
    → Holds m xs
    → contains s (paths xs) ≡ false
    → Granted e xs s b
    → b.stale ≡ null
    → (e'.buffer ≡ true) × (e'.copy.left ≤ 4096) × (c_str e'.copy.bytes ≡ some s)
    → m.size + 1 < 2 ^ 32
    → length xs + 1 < fuel
    → Returns
        (λ r m'.
          (r ≡ pos 0)
          × Returns
              (λ r' m2. (r' ≡ pos 0) × IsList m2 xs × (m2.size ≡ size_left xs m.size))
              (remove_from_blacklist fuel e' m'))
        (add_to_blacklist fuel e m)
add_to_blacklist-remove_from_blacklist fuel e e' m xs s b h new g st (buf, small, str) room lt =
    let zs : Cells = xs ++ (b.address, s) ∷ [] in
    let there : contains s (paths zs) ≡ true =
      subst (λ k. contains s (paths (if k then xs else zs)) ≡ true) new
        (with_path-contains s b.address xs) in
    Returns-mono (Added m xs s b.address) _ (add_to_blacklist fuel e m)
      (add_to_blacklist-Added fuel e m xs s b h g st (omega arith))
      (λ r m' ad.
        let longer : Holds m' zs =
          subst (λ k. Holds m' (if k then xs else zs)) new
            (Added-Holds m m' xs s b.address r h room ad) in
        let zero_back : r ≡ pos 0 = subst (λ k. r ≡ (if k then eexist else pos 0)) new ad.0 in
        let one_more : m'.size ≡ m.size + 1 = ground (arith, new, ad.2) in
        (
          zero_back,
          Returns-mono (Removed m' zs s) _ (remove_from_blacklist fuel e' m')
              (remove_from_blacklist-Removed fuel e' m' zs s longer buf small str
                (omega (arith, length-append xs ((b.address, s) ∷ []))))
              (λ r' m2 re. (
                subst (λ k. r' ≡ (if k then pos 0 else einval)) there re.0,
                subst (IsList m2) (erase_cell-snoc s b.address xs new) re.1,
                re.2
                    ∙ ap (size_after s (paths zs)) one_more
                    ∙ size_after-snoc s b.address xs m.size new room,
              )),
        ))

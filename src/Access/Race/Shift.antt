-- ===== src/Access/Race/Shift.antt =====
-- What one change of the monitor, by another processor, does to the list and the memory around it.
-- The part of `sys_switch_rf_state` under the lock.
use reference_monitor.Base.{
  Bool-cases, [], ap, arith, false, if◌then◌else◌, inl, inr, length, none, refl, some, subst, sym,
  true, ℕ, ◌++◌, ◌+◌, ◌<◌, ◌^◌, ◌∷◌, ◌≡◌, ◌≢◌, ◌≤◌, ◌⊎◌,
}
use reference_monitor.Access.Race.{length-with_path-le, start-with_path}
use reference_monitor.Base.Int.{pos, ℤ}
use reference_monitor.Blacklist.{AddEnv, Block, RemoveEnv, add_to_blacklist, remove_from_blacklist}
use reference_monitor.Blacklist.Add.{Granted, add_to_blacklist-Added}
use reference_monitor.Blacklist.Add.Spares.{add_to_blacklist-Spares}
use reference_monitor.Blacklist.Keeps.{Added-Holds, Removed-Holds, length-erase_cell-le, with_path}
use reference_monitor.Blacklist.Remove.{
  Removed, remove_from_blacklist-Removed, remove_from_blacklist-first,
}
use reference_monitor.Blacklist.Remove.Spares.{remove_from_blacklist-Spares}
use reference_monitor.CString.{c_str, str_eq}
use reference_monitor.Monitor.{FilePath, Monitor, Nodes, Ptr, null, spin_lock, spin_unlock}
use reference_monitor.Monitor.Chain.{Cells, has, paths, start}
use reference_monitor.Monitor.Edit.{
  contains, erase_cell, erase_cell_hit, has-erase_cell, has-snoc, start-erase_cell,
}
use reference_monitor.Monitor.Invariant.{Holds}
use reference_monitor.Run.{Cmd, Returns, Returns-both, Returns-mono, pure, ◌>>◌}
use reference_monitor.Syscalls.{set_state}

unfoldable pub set_under_lock : ℤ → Cmd Monitor ℤ
set_under_lock state = do spin_lock; set_state state; spin_unlock; pure (pos 0)

-- A change of the monitor `m` with the list `xs`, which runs to its end with the memory it needs: an
-- addition gets an address at which no node lies, and the count has room for one more.

pub data Change (fuel : ℕ) (m : Monitor) (xs : Cells) : Cmd Monitor ℤ → Cells → Type 0 where
  adding :
      (e : AddEnv) (s : FilePath) (b : Block)
      → Granted e xs s b
      → b.stale ≡ null
      → m.nodes b.address ≡ none
      → m.size + 1 < 2 ^ 32
      → Change fuel m xs (add_to_blacklist fuel e) (with_path s b.address xs)
  removing :
      (e : RemoveEnv) (s : FilePath)
      → (e.buffer ≡ true) × (e.copy.left ≤ 4096) × (c_str e.copy.bytes ≡ some s)
      → Change fuel m xs (remove_from_blacklist fuel e) (erase_cell s xs)
  switching : (state : ℤ) → Change fuel m xs (set_under_lock state) xs

-- Nodes outside the list `xs` stay as they are.
abbrev pub Spares : Nodes → Cells → Nodes → Type 0
Spares h xs g = (a : Ptr) → has a xs ≡ false → h a ≢ none → g a ≡ h a

-- What the list `ys` has more than `xs` lies where there was no node.
abbrev pub FreshIn : Nodes → Cells → Cells → Type 0
FreshIn h xs ys = (a : Ptr) → has a ys ≡ true → has a xs ≡ false → h a ≡ none

-- How the list changes: its first node goes and memory stays as it is, or memory changes at the list
-- and at a fresh address only, and the list was empty or keeps its first node.
pub data Shift (h : Nodes) (xs : Cells) (g : Nodes) (ys : Cells) : Type 0 where
  first_gone : (c : Ptr) (t : FilePath) → xs ≡ (c, t) ∷ ys → g ≡ h → Shift h xs g ys
  elsewhere :
      Spares h xs g
      → FreshIn h xs ys
      → (start null ys ≡ start null xs) ⊎ (xs ≡ [])
      → Shift h xs g ys

-- After the change.
pub record Changed (m : Monitor) (xs : Cells) (m' : Monitor) (ys : Cells) : Type 0 where
  pub holds : Holds m' ys
  pub short : length ys ≤ length xs + 1
  pub shift : Shift m.nodes xs m'.nodes ys

has-with_path :
    (s : FilePath) (a : Ptr) (xs : Cells) (h : Nodes) → h a ≡ none → FreshIn h xs (with_path s a xs)
has-with_path s a xs h e b i out = elim (Bool-cases (contains s (paths xs))) [
  | inl old ↦
      let here : has b xs ≡ true =
        subst (λ k. has b (if k then xs else xs ++ (a, s) ∷ []) ≡ true) old i in
      absurd (cc)
  | inr new ↦
      let here : has b (xs ++ (a, s) ∷ []) ≡ true =
        subst (λ k. has b (if k then xs else xs ++ (a, s) ∷ []) ≡ true) new i in
      let same : b ≡ a = ground (arith, has-snoc b xs a s) in subst (λ z. h z ≡ none) (sym same) e
]

first-with_path :
    (s : FilePath) (a : Ptr) (xs : Cells)
    → (start null (with_path s a xs) ≡ start null xs) ⊎ (xs ≡ [])
first-with_path s a [] = inr refl
first-with_path s a ((c, t) ∷ rest) = inl (start-with_path s a c t rest)

module _ (fuel : ℕ) (m : Monitor) (xs : Cells) (h : Holds m xs) (lt : length xs < fuel) where
  adding-Changed :
      (e : AddEnv) (s : FilePath) (b : Block)
      → Granted e xs s b
      → b.stale ≡ null
      → m.nodes b.address ≡ none
      → m.size + 1 < 2 ^ 32
      → Returns (λ r m'. Changed m xs m' (with_path s b.address xs)) (add_to_blacklist fuel e m)
  adding-Changed e s b g st free room =
      let ends = add_to_blacklist-Added fuel e m xs s b h g st (omega arith) in
      let spares = add_to_blacklist-Spares fuel e m xs s b h g (omega arith) in
      Returns-mono _ _ (add_to_blacklist fuel e m)
        (Returns-both _ _ (add_to_blacklist fuel e m) ends spares)
        (λ r m' (ad, same). record {
          holds = Added-Holds m m' xs s b.address r h room ad;
          short = length-with_path-le s b.address xs;
          shift =
              elsewhere
                (λ a out node.
                  same a out (λ eq. node (subst (λ z. m.nodes z ≡ none) (sym eq) free)))
                (has-with_path s b.address xs m.nodes free) (first-with_path s b.address xs);
        })

  removing-Changed :
      (e : RemoveEnv) (s : FilePath)
      → (e.buffer ≡ true) × (e.copy.left ≤ 4096) × (c_str e.copy.bytes ≡ some s)
      → ((start null (erase_cell s xs) ≡ start null xs) ⊎ (xs ≡ []))
      → Returns (λ r m'. Changed m xs m' (erase_cell s xs)) (remove_from_blacklist fuel e m)
  removing-Changed e s (buf, small, str) first =
      let ends = remove_from_blacklist-Removed fuel e m xs s h buf small str lt in
      let spares = remove_from_blacklist-Spares fuel e m xs s h buf small str lt in
      let short = length-erase_cell-le s xs in
      Returns-mono _ _ (remove_from_blacklist fuel e m)
        (Returns-both _ _ (remove_from_blacklist fuel e m) ends spares)
        (λ r m' (re, same). record {
          holds = Removed-Holds m m' xs s r h re;
          short = omega (arith, short);
          shift =
              elsewhere (λ a out node. same a out)
                (λ a i out. let gone = has-erase_cell a xs s out in absurd (cc)) first;
        })

-- The first node goes: memory stays as it is.
removing_first-Changed :
    (fuel : ℕ) (m : Monitor) (c : Ptr) (t : FilePath) (rest : Cells) (e : RemoveEnv) (s : FilePath)
    → Holds m ((c, t) ∷ rest)
    → (e.buffer ≡ true) × (e.copy.left ≤ 4096) × (c_str e.copy.bytes ≡ some s)
    → length rest + 1 < fuel
    → str_eq t s ≡ true
    → Returns
        (λ r m'. Changed m ((c, t) ∷ rest) m' (erase_cell s ((c, t) ∷ rest)))
        (remove_from_blacklist fuel e m)
removing_first-Changed fuel m c t rest e s h (buf, small, str) lt hit =
    let ends =
      remove_from_blacklist-Removed fuel e m ((c, t) ∷ rest) s h buf small str (omega arith) in
    let kept = erase_cell_hit c t rest s hit in
    let short = length-erase_cell-le s ((c, t) ∷ rest) in
    let run = remove_from_blacklist-first fuel e m ((c, t) ∷ rest) s c t rest h buf small str hit in
    let re = subst (Returns (Removed m ((c, t) ∷ rest) s)) run ends in
    rw run (record {
      holds = Removed-Holds m _ ((c, t) ∷ rest) s (pos 0) h re;
      short = omega (arith, short);
      shift = first_gone c t (ap (λ ys. (c, t) ∷ ys) (sym kept)) refl;
    })

switching-Changed :
    (m : Monitor) (xs : Cells) (state : ℤ)
    → Holds m xs
    → Returns (λ r m'. Changed m xs m' xs) (set_under_lock state m)
unfolding set_under_lock set_state spin_lock spin_unlock
switching-Changed m xs state h = rw h.unlocked (record {
  holds = record {
    list = record { head = h.list.head; chain = h.list.chain };
    unlocked = refl;
    counted = h.counted;
    fits = h.fits;
  };
  short = omega arith;
  shift = elsewhere (λ a out node. refl) (λ a i out. absurd (cc)) (inl refl);
})

-- A change of a well-formed monitor, with fuel for the list, comes back and leaves a
-- well-formed monitor, and memory as `Shift` says.
pub Change-Changed :
    (fuel : ℕ) (m : Monitor) (xs ys : Cells) (edit : Cmd Monitor ℤ)
    → Holds m xs
    → length xs < fuel
    → Change fuel m xs edit ys
    → Returns (λ r m'. Changed m xs m' ys) (edit m)
Change-Changed fuel m xs ys _ h lt (adding e s b g st free room) =
    adding-Changed fuel m xs h lt e s b g st free room
Change-Changed fuel m xs ys _ h lt (switching state) = switching-Changed m xs state h
Change-Changed fuel m [] ys _ h lt (removing e s copied) =
    removing-Changed fuel m [] h lt e s copied (inr refl)
Change-Changed fuel m ((c, t) ∷ rest) ys _ h lt (removing e s copied) =
    elim (Bool-cases (str_eq t s)) [
      | inl hit ↦ removing_first-Changed fuel m c t rest e s h copied (omega arith) hit
      | inr miss ↦
          removing-Changed fuel m ((c, t) ∷ rest) h lt e s copied
            (inl (start-erase_cell c t rest s miss))
    ]

-- ===== src/Blacklist/Add/Spares.antt =====
-- The memory that an insertion leaves alone: nodes that are not in the list.
use reference_monitor.Base.{
  Bool, [], arith, false, length, refl, some, subst, true, ℕ, ◌∙◌, ◌∷◌, ◌≡◌, ◌≢◌, ◌≤◌,
}
use reference_monitor.Blacklist.{AddEnv, Block, add_to_blacklist, is_minus_one, link}
use reference_monitor.Blacklist.Add.{Granted, insert_lem, link_cons, outcome}
use reference_monitor.Monitor.{
  FilePath, Monitor, Ptr, grow, node, set_head, spin_lock, spin_unlock, write,
}
use reference_monitor.Monitor.Chain.{Cells, Chain, Chain-write, IsList, has, paths, write_other}
use reference_monitor.Monitor.Edit.{contains, link_last, link_last-same}
use reference_monitor.Monitor.Invariant.{Holds}
use reference_monitor.Run.{Returns, Returns-mono}

module _ (s : FilePath) where
  outcome-same :
      (known : Bool) (m : Monitor) (c : Ptr) (t : FilePath) (rest : Cells) (new : Ptr)
      → Returns
          (λ r m'. (a : Ptr) → has a ((c, t) ∷ rest) ≡ false → m'.nodes a ≡ m.nodes a)
          (outcome m known (link_last m.nodes c t rest new))
  outcome-same true m c t rest new = λ a out. refl
  outcome-same false m c t rest new = λ a out. link_last-same m.nodes c t rest new a out

  link-Spares :
      (new : Ptr) (fuel : ℕ) (m : Monitor) (xs : Cells)
      → IsList m xs
      → m.locked ≡ false
      → length xs ≤ fuel
      → Returns (λ r m'. (a : Ptr) → has a xs ≡ false → m'.nodes a ≡ m.nodes a) (link fuel s new m)
  unfolding link set_head grow spin_lock spin_unlock
  link-Spares new fuel m [] is un lt = rw (un, is.head) (λ a out. refl)
  link-Spares new fuel m ((c, t) ∷ rest) is un lt =
      subst
        (λ z.
          Chain m.nodes ((z, t) ∷ rest)
          → Returns (λ r m'. (a : Ptr) → has a ((z, t) ∷ rest) ≡ false → m'.nodes a ≡ m.nodes a)
              (link fuel s new m))
        is.head
        (λ ch.
          rw (link_cons s new fuel m t rest ch un (omega arith))
            (outcome-same (contains s (t ∷ paths rest)) m m.head t rest new))
        is.chain

-- From a well-formed monitor, `add_to_blacklist` writes at the new address and to nodes of the list
-- only.
pub add_to_blacklist-Spares :
    (fuel : ℕ) (e : AddEnv) (m : Monitor) (xs : Cells) (s : FilePath) (b : Block)
    → Holds m xs
    → Granted e xs s b
    → length xs ≤ fuel
    → Returns
        (λ r m'. (a : Ptr) → has a xs ≡ false → a ≢ b.address → m'.nodes a ≡ m.nodes a)
        (add_to_blacklist fuel e m)
unfolding add_to_blacklist
add_to_blacklist-Spares fuel e m xs s b h g lt =
    let got : is_minus_one e.copy.left ≡ false = ground (arith, g.copied) in
    let m1 : Monitor = record m { nodes = write m.nodes b.address (some (node s b.stale)) } in
    rw (g.buffer, got, g.block, g.path_buffer, insert_lem fuel e.copy.bytes s b m g.terminated)
      (Returns-mono (λ r m'. (a : Ptr) → has a xs ≡ false → m'.nodes a ≡ m1.nodes a) _
        (link fuel s b.address m1)
        (link-Spares s b.address fuel m1 xs
          (record {
            head = h.list.head;
            chain = Chain-write m.nodes b.address _ xs g.fresh h.list.chain;
          })
          h.unlocked lt)
        (λ r m' same a out ne. same a out ∙ write_other m.nodes b.address _ a ne))

-- ===== src/Blacklist/Add/Stops.antt =====
-- The walks of `add_to_blacklist` end by their own tests.
use reference_monitor.Base.{
  Bool-cases, List, Option-cases, [], arith, false, inl, inr, length, refl, some, subst, ℕ, ◌∷◌,
  ◌≡◌, ◌≤◌,
}
use reference_monitor.Blacklist.{AddEnv, Block, add_to_blacklist, insert, is_minus_one, link}
use reference_monitor.Blacklist.Add.{insert_lem, link_cons}
use reference_monitor.CString.{c_str}
use reference_monitor.Monitor.{
  FilePath, Monitor, Ptr, grow, node, set_head, spin_lock, spin_unlock, store, write,
}
use reference_monitor.Monitor.Chain.{Cells, Chain, Chain-write, IsList, has, paths}
use reference_monitor.Monitor.Edit.{contains}
use reference_monitor.Monitor.Invariant.{Holds}
use reference_monitor.Probes.{block}
use reference_monitor.Run.{Settled}

module _ (fuel fuel' : ℕ) where
  link-Settled :
      (s : FilePath) (new : Ptr) (m : Monitor) (xs : Cells)
      → IsList m xs
      → m.locked ≡ false
      → length xs ≤ fuel
      → length xs ≤ fuel'
      → Settled (link fuel s new m) (link fuel' s new m)
  unfolding link set_head grow spin_lock spin_unlock
  link-Settled s new m [] is un lt lt' = rw (un, is.head) (refl, refl)
  link-Settled s new m ((c, t) ∷ rest) is un lt lt' =
      subst (λ z. Chain m.nodes ((z, t) ∷ rest) → Settled (link fuel s new m) (link fuel' s new m))
        is.head
        (λ ch.
          rw
            (
              link_cons s new fuel m t rest ch un (omega arith),
              link_cons s new fuel' m t rest ch un (omega arith),
            )
            (
              refl,
              elim (Bool-cases (contains s (t ∷ paths rest))) [
                | inl old ↦ rw old
                | inr new ↦ rw new
              ],
            ))
        is.chain

  insert-Settled :
      (bytes : List ℕ) (b : Block) (m : Monitor) (xs : Cells)
      → Holds m xs
      → has b.address xs ≡ false
      → length xs ≤ fuel
      → length xs ≤ fuel'
      → Settled (insert fuel bytes b m) (insert fuel' bytes b m)
  unfolding insert store
  insert-Settled bytes b m xs h apart lt lt' = elim (Option-cases (c_str bytes)) [
    | inl e ↦ rw (e, insert) (refl, refl)
    | inr (s, e) ↦
        rw (insert_lem fuel bytes s b m e, insert_lem fuel' bytes s b m e)
          (link-Settled s b.address
            (record m { nodes = write m.nodes b.address (some (node s b.stale)) }) xs
            (record {
              head = h.list.head;
              chain = Chain-write m.nodes b.address _ xs apart h.list.chain;
            })
            h.unlocked lt lt')
  ]

  -- On a well-formed monitor, when a new node's memory is none of the list's, `add_to_blacklist` comes
  -- to the same end on every fuel that is not below the length of the list.
  pub add_to_blacklist-Settled :
      (e : AddEnv) (m : Monitor) (xs : Cells)
      → Holds m xs
      → ((b : Block) → e.block ≡ some b → has b.address xs ≡ false)
      → length xs ≤ fuel
      → length xs ≤ fuel'
      → Settled (add_to_blacklist fuel e m) (add_to_blacklist fuel' e m)
  unfolding add_to_blacklist
  add_to_blacklist-Settled e m xs h apart lt lt' = elim (Bool-cases e.buffer) [
    | inr b ↦ rw b (refl, refl)
    | inl b ↦ elim (Bool-cases (is_minus_one e.copy.left)) [
      | inl c ↦ rw (b, c) (refl, refl)
      | inr c ↦ elim (Option-cases e.block) [
        | inl d ↦ rw (b, c, d) (refl, refl)
        | inr (block, d) ↦ elim (Bool-cases e.path_buffer) [
          | inr f ↦ rw (b, c, d, f) (refl, refl)
          | inl f ↦
              rw (b, c, d, f) (insert-Settled e.copy.bytes block m xs h (apart block d) lt lt')
        ]
      ]
    ]
  ]

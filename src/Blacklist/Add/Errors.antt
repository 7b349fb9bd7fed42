-- ===== src/Blacklist/Add/Errors.antt =====
-- What `add_to_blacklist` leaves where it does not add, whatever the kernel answers.
-- The call added, or the list `xs` and all else is as it was in `m`, and the lock is free.
use reference_monitor.Base.{
  Bool-cases, List, Option-cases, [], arith, false, inl, inr, length, refl, some, subst, ℕ, ◌∷◌,
  ◌≡◌, ◌≤◌, ◌⊎◌,
}
use reference_monitor.Base.Int.{eagain, enomem, is_error, ℤ}
use reference_monitor.Blacklist.{AddEnv, Block, add_to_blacklist, insert, is_minus_one, link}
use reference_monitor.Blacklist.Add.{insert_lem, link_cons}
use reference_monitor.CString.{c_str}
use reference_monitor.Monitor.{
  FilePath, Monitor, Ptr, grow, node, set_head, spin_lock, spin_unlock, write,
}
use reference_monitor.Monitor.Chain.{Cells, Chain, Chain-write, IsList, has, paths}
use reference_monitor.Monitor.Edit.{contains}
use reference_monitor.Monitor.Invariant.{Holds}
use reference_monitor.Probes.{block}
use reference_monitor.Run.{IfDone}

abbrev pub AddedOrKept : Monitor → Cells → ℤ → Monitor → Type 0
AddedOrKept m xs r m' =
    (is_error r ≡ false)
    ⊎ (IsList m' xs
        × (m'.size ≡ m.size)
        × (m'.locked ≡ false)
        × (m'.state ≡ m.state)
        × (m'.password ≡ m.password))

as_it_was : (m : Monitor) (xs : Cells) (r : ℤ) → Holds m xs → AddedOrKept m xs r m
as_it_was m xs r h = inr (h.list, refl, h.unlocked, refl, refl)

module _ (fuel : ℕ) where
  link-IfDone :
      (s : FilePath) (new : Ptr) (m : Monitor) (xs : Cells)
      → IsList m xs
      → m.locked ≡ false
      → length xs ≤ fuel
      → IfDone (AddedOrKept m xs) (link fuel s new m)
  unfolding link set_head grow spin_lock spin_unlock
  link-IfDone s new m [] is un lt = rw (un, is.head) (inl refl)
  link-IfDone s new m ((c, t) ∷ rest) is un lt =
      subst
        (λ z.
          z ≡ c
          → Chain m.nodes ((z, t) ∷ rest)
          → IfDone (AddedOrKept m ((c, t) ∷ rest)) (link fuel s new m))
        is.head
        (λ first ch.
          rw (link_cons s new fuel m t rest ch un (omega arith))
            (elim (Bool-cases (contains s (t ∷ paths rest))) [
              | inl old ↦
                  rw old (inr (record { head = first; chain = is.chain }, refl, refl, refl, refl))
              | inr new_path ↦ rw new_path (inl refl)
            ]))
        refl is.chain

  insert-IfDone :
      (bytes : List ℕ) (b : Block) (m : Monitor) (xs : Cells)
      → Holds m xs
      → has b.address xs ≡ false
      → length xs ≤ fuel
      → IfDone (AddedOrKept m xs) (insert fuel bytes b m)
  unfolding insert
  insert-IfDone bytes b m xs h apart lt = elim (Option-cases (c_str bytes)) [
    | inl e ↦ rw (e, insert) tt
    | inr (s, e) ↦ rw (insert_lem fuel bytes s b m e) (
        link-IfDone s b.address
          (record m { nodes = write m.nodes b.address (some (node s b.stale)) }) xs
          (record {
            head = h.list.head;
            chain = Chain-write m.nodes b.address _ xs apart h.list.chain;
          })
          h.unlocked lt)
  ]

  -- Of a well-formed monitor, when a new node's memory is none of the list's, with fuel for the list:
  -- where `add_to_blacklist` comes back with an error, the list, the count, the state and the
  -- password are as they were and the lock is free.
  pub add_to_blacklist-IfDone :
      (e : AddEnv) (m : Monitor) (xs : Cells)
      → Holds m xs
      → ((b : Block) → e.block ≡ some b → has b.address xs ≡ false)
      → length xs ≤ fuel
      → IfDone (AddedOrKept m xs) (add_to_blacklist fuel e m)
  unfolding add_to_blacklist
  add_to_blacklist-IfDone e m xs h apart lt = elim (Bool-cases e.buffer) [
    | inr b ↦ rw b (as_it_was m xs enomem h)
    | inl b ↦ elim (Bool-cases (is_minus_one e.copy.left)) [
      | inl c ↦ rw (b, c) (as_it_was m xs eagain h)
      | inr c ↦ elim (Option-cases e.block) [
        | inl d ↦ rw (b, c, d) (as_it_was m xs enomem h)
        | inr (block, d) ↦ elim (Bool-cases e.path_buffer) [
          | inr f ↦ rw (b, c, d, f) tt
          | inl f ↦ rw (b, c, d, f) (insert-IfDone e.copy.bytes block m xs h (apart block d) lt)
        ]
      ]
    ]
  ]

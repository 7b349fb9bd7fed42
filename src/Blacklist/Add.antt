-- ===== src/Blacklist/Add.antt =====
-- `add_to_blacklist` on every path through it.
pub mod Spares
pub mod Stops
pub mod Errors
use reference_monitor.Base.{
  Bool, Bool-cases, List, [], arith, false, if◌then◌else◌, inl, inr, length, refl, some, subst, suc,
  true, zero, ℕ, ◌%◌, ◌++◌, ◌+◌, ◌<◌, ◌==◌, ◌^◌, ◌∷◌, ◌≡◌, ◌≢◌, ◌≤◌,
}
use reference_monitor.Base.Int.{eexist, pos, ℤ}
use reference_monitor.Blacklist.{AddEnv, Block, add_to_blacklist, insert, is_minus_one, link, walk}
use reference_monitor.CString.{c_str, str_eq}
use reference_monitor.Monitor.{
  FilePath, Monitor, Nodes, Ptr, grow, node, null, set_head, spin_lock, spin_unlock, store, write,
}
use reference_monitor.Monitor.Chain.{
  Cells, Chain, Chain-write, IsList, has, load_lem, paths, set_next_lem, write_self,
}
use reference_monitor.Monitor.Edit.{Chain-link_last, contains, link_last}
use reference_monitor.Monitor.Invariant.{Holds}
use reference_monitor.Run.{Returns, Run, done}

-- The monitor that an insertion leaves, with the memory `h`.
abbrev grown : Monitor → Nodes → Monitor
grown m h = record m { locked = false; size = (m.size + 1) % 2 ^ 32; nodes = h }

abbrev outcome : Monitor → Bool → Nodes → Run Monitor ℤ
outcome m known h =
    if known then done eexist (record m { locked = false }) else done (pos 0) (grown m h)

module _ (s : FilePath) (new : Ptr) where
  walk_lem :
      (fuel : ℕ) (c : Ptr) (t : FilePath) (rest : Cells) (m : Monitor)
      → Chain m.nodes ((c, t) ∷ rest)
      → m.locked ≡ true
      → length rest < fuel
      → walk fuel c s new m
        ≡ outcome m (contains s (t ∷ paths rest)) (link_last m.nodes c t rest new)
  unfolding walk contains link_last grow spin_unlock
  walk_lem zero c t rest m ch lk fuel = absurd (omega arith)
  walk_lem (suc k) c t [] m ch lk fuel =
      rw (load_lem m c t null ch.0 ch.1) (elim (Bool-cases (str_eq t s)) [
        | inl hit ↦ rw (hit, lk)
        | inr miss ↦ rw (miss, set_next_lem m c t null new ch.0 ch.1, lk)
      ])
  walk_lem (suc k) c t ((d, u) ∷ rest) m ch lk fuel =
      let more : (d == null) ≡ false = ground (arith, (ch.3).0) in
      rw (load_lem m c t d ch.0 ch.1, more)
        (elim (Bool-cases (str_eq t s)) [
          | inl hit ↦ rw (hit, lk)
          | inr miss ↦ rw miss (walk_lem k d u rest m ch.3 lk (omega arith))
        ])

-- What an insertion of `s` at address `a` leaves of the list `xs`, if the path is `known` or not.
abbrev AddedAs : Bool → Monitor → Cells → FilePath → Ptr → ℤ → Monitor → Type 0
AddedAs known m xs s a r m' =
    (r ≡ (if known then eexist else pos 0))
    × IsList m' (if known then xs else xs ++ (a, s) ∷ [])
    × (m'.size ≡ (if known then m.size else (m.size + 1) % 2 ^ 32))
    × (m'.locked ≡ false)
    × (m'.state ≡ m.state)
    × (m'.password ≡ m.password)

abbrev pub Added : Monitor → Cells → FilePath → Ptr → ℤ → Monitor → Type 0
Added m xs s a = AddedAs (contains s (paths xs)) m xs s a

-- The kernel gives all the memory that is asked for, at a fresh address, and copies the path `s`.
pub record Granted (e : AddEnv) (xs : Cells) (s : FilePath) (b : Block) : Type 0 where
  pub buffer : e.buffer ≡ true
  pub copied : e.copy.left ≤ 4096
  pub terminated : c_str e.copy.bytes ≡ some s
  pub block : e.block ≡ some b
  pub path_buffer : e.path_buffer ≡ true
  pub not_null : b.address ≢ null
  pub fresh : has b.address xs ≡ false

module _ (s : FilePath) (new : Ptr) where
  link_cons :
      (fuel : ℕ) (m : Monitor) (t : FilePath) (rest : Cells)
      → Chain m.nodes ((m.head, t) ∷ rest)
      → m.locked ≡ false
      → length rest < fuel
      → link fuel s new m
        ≡ outcome m (contains s (t ∷ paths rest)) (link_last m.nodes m.head t rest new)
  unfolding link contains link_last grow spin_lock spin_unlock
  link_cons fuel m t [] ch un lt =
      let some_head : (m.head == null) ≡ false = ground (arith, ch.0) in
      rw (un, some_head, load_lem (record m { locked = true }) m.head t null ch.0 ch.1)
        (elim (Bool-cases (str_eq t s)) [
          | inl hit ↦ rw hit
          | inr miss ↦
              rw (miss, set_next_lem (record m { locked = true }) m.head t null new ch.0 ch.1)
        ])
  link_cons fuel m t ((d, u) ∷ rest) ch un lt =
      let some_head : (m.head == null) ≡ false = ground (arith, ch.0) in
      let more : (d == null) ≡ false = ground (arith, (ch.3).0) in
      rw (un, some_head, load_lem (record m { locked = true }) m.head t d ch.0 ch.1, more)
        (walk_lem s new fuel m.head t ((d, u) ∷ rest) (record m { locked = true }) ch refl lt)

  outcome-AddedAs :
      (known : Bool) (m : Monitor) (t : FilePath) (rest : Cells)
      → Chain m.nodes ((m.head, t) ∷ rest)
      → new ≢ null
      → m.nodes new ≡ some (node s null)
      → has new ((m.head, t) ∷ rest) ≡ false
      → Returns
          (AddedAs known m ((m.head, t) ∷ rest) s new)
          (outcome m known (link_last m.nodes m.head t rest new))
  outcome-AddedAs true m t rest ch ne e out =
      (refl, record { head = refl; chain = ch }, refl, refl, refl, refl)
  outcome-AddedAs false m t rest ch ne e out = (
    refl,
    record { head = refl; chain = Chain-link_last m.nodes m.head t rest new s ch ne e out },
    refl,
    refl,
    refl,
    refl,
  )

  link-Added :
      (fuel : ℕ) (m : Monitor) (xs : Cells)
      → IsList m xs
      → m.locked ≡ false
      → new ≢ null
      → m.nodes new ≡ some (node s null)
      → has new xs ≡ false
      → length xs ≤ fuel
      → Returns (Added m xs s new) (link fuel s new m)
  unfolding link contains set_head grow spin_lock spin_unlock
  link-Added fuel m [] is un ne e out lt =
      rw (un, is.head)
        (refl, record { head = refl; chain = (ne, e, refl, tt) }, refl, refl, refl, refl)
  link-Added fuel m ((c, t) ∷ rest) is un ne e out lt =
      subst
        (λ z.
          Chain m.nodes ((z, t) ∷ rest)
          → has new ((z, t) ∷ rest) ≡ false
          → Returns (Added m ((z, t) ∷ rest) s new) (link fuel s new m))
        is.head
        (λ ch o.
          rw (link_cons fuel m t rest ch un (omega arith))
            (outcome-AddedAs (contains s (t ∷ paths rest)) m t rest ch ne e o))
        is.chain out

insert_lem :
    (fuel : ℕ) (bytes : List ℕ) (s : FilePath) (b : Block) (m : Monitor)
    → c_str bytes ≡ some s
    → insert fuel bytes b m
      ≡ link fuel s b.address (record m { nodes = write m.nodes b.address (some (node s b.stale)) })
unfolding insert store
insert_lem fuel bytes s b m e = rw (e, insert)

module _ (fuel : ℕ) (e : AddEnv) (m : Monitor) (xs : Cells) (s : FilePath) (b : Block) where
  -- From a well-formed monitor whose list has at most `fuel` nodes, where the new node's memory
  -- happens to hold NULL in `next`, `add_to_blacklist` returns: a path that is in the list gets
  -- -EEXIST and changes nothing of the list, any other goes behind the last node, with 0 and one
  -- more in `blacklist_size`. The lock is free again, state and password are as they were.
  pub add_to_blacklist-Added :
      Holds m xs
      → Granted e xs s b
      → b.stale ≡ null
      → length xs ≤ fuel
      → Returns (Added m xs s b.address) (add_to_blacklist fuel e m)
  unfolding add_to_blacklist
  add_to_blacklist-Added h g st lt =
      let got : is_minus_one e.copy.left ≡ false = ground (arith, g.copied) in
      rw
        (g.buffer, got, g.block, g.path_buffer, insert_lem fuel e.copy.bytes s b m g.terminated, st)
        (link-Added s b.address fuel
          (record m { nodes = write m.nodes b.address (some (node s null)) }) xs
          (record {
            head = h.list.head;
            chain = Chain-write m.nodes b.address _ xs g.fresh h.list.chain;
          })
          h.unlocked g.not_null written g.fresh lt)
    where
      written : write m.nodes b.address (some (node s null)) b.address ≡ some (node s null)
      written = write_self m.nodes b.address _

-- ===== src/Install/Restore.antt =====
-- The system call table while the module is loaded, and after it is gone.
use reference_monitor.Base.{
  All, Bool, Bool-cases, List, Option-cases, [], arith, false, if◌then◌else◌, inl, inr, length, map,
  refl, some, sym, true, ℕ, ◌%◌, ◌*◌, ◌+◌, ◌-◌, ◌/◌, ◌<◌, ◌==◌, ◌^◌, ◌||◌, ◌∙◌, ◌∷◌, ◌≡◌,
}
use reference_monitor.Base.Int.{eq_pos, pos}
use reference_monitor.Install.{
  Kernel, hacked_entries, initialize_syscalls, install_loop, is_protected, protect_memory,
  restore_loop, restore_table, unprotect_memory, update, write_entry,
}
use reference_monitor.Run.{Returns, and_then, done, pure}
use reference_monitor.SyscallTable.{Table, get_entries}
use reference_monitor.SyscallTable.Entries.{Rising, get_entries-Found}

-- The table with the values `vs` at the indices `is`.
unfoldable pub updates : Table → List ℕ → List ℕ → Table
updates p [] vs = p
updates p (i ∷ is) [] = p
updates p (i ∷ is) (v ∷ vs) = updates (update p i v) is vs

unfoldable pub fill : Table → List ℕ → ℕ → Table
fill p [] v = p
fill p (i ∷ is) v = fill (update p i v) is v

unprotected : (cr0 : ℕ) → is_protected (cr0 - ((cr0 / 2 ^ 16) % 2) * 2 ^ 16) ≡ false
unfolding is_protected
unprotected cr0 = ground arith

install_loop_lem :
    (is vs : List ℕ) (k : Kernel)
    → is_protected k.cr0 ≡ false
    → install_loop is vs k ≡ done tt (record k { table = updates k.table is vs })
unfolding install_loop updates write_entry
install_loop_lem [] vs k off = refl
install_loop_lem (i ∷ is) [] k off = refl
install_loop_lem (i ∷ is) (v ∷ vs) k off =
    rw off (install_loop_lem is vs (record k { table = update k.table i v }) off)

restore_loop_lem :
    (is : List ℕ) (v : ℕ) (k : Kernel)
    → is_protected k.cr0 ≡ false
    → restore_loop is v k ≡ done tt (record k { table = fill k.table is v })
unfolding restore_loop fill write_entry
restore_loop_lem [] v k off = refl
restore_loop_lem (i ∷ is) v k off =
    rw off (restore_loop_lem is v (record k { table = update k.table i v }) off)

-- Outside its indices an update changes nothing; filling sets its indices.
abbrev pub among : ℕ → List ℕ → Bool
among j [] = false
among j (i ∷ is) = (j == i) || among j is

updates-outside :
    (p : Table) (is vs : List ℕ) (j : ℕ) → among j is ≡ false → updates p is vs j ≡ p j
unfolding updates update
updates-outside p [] vs j out = refl
updates-outside p (i ∷ is) [] j out = refl
updates-outside p (i ∷ is) (v ∷ vs) j out = ground (arith, updates-outside (update p i v) is vs j)

fill_lem : (p : Table) (is : List ℕ) (v j : ℕ) → fill p is v j ≡ (if among j is then v else p j)
unfolding fill update
fill_lem p [] v j = refl
fill_lem p (i ∷ is) v j = ground (arith, fill_lem (update p i v) is v j)

not-among : (lo hi j : ℕ) (is : List ℕ) → Rising lo hi is → j < lo → among j is ≡ false
not-among lo hi j [] r h = refl
not-among lo hi j (i ∷ is) r h = ground (arith, not-among (i + 1) hi j is r.2)

update-here : (p : Table) (i v : ℕ) → update p i v i ≡ v
unfolding update
update-here p i v = ground arith

-- Each index holds its value.
updates-map :
    (p : Table) (lo hi : ℕ) (is vs : List ℕ)
    → Rising lo hi is
    → length is ≡ length vs
    → map (updates p is vs) is ≡ vs
unfolding updates
updates-map p lo hi [] [] r e = refl
updates-map p lo hi [] (v ∷ vs) r e = absurd (omega arith)
updates-map p lo hi (i ∷ is) [] r e = absurd (omega arith)
updates-map p lo hi (i ∷ is) (v ∷ vs) r e =
    let here : updates (update p i v) is vs i ≡ v =
      updates-outside (update p i v) is vs i (not-among (i + 1) hi i is r.2 (omega arith))
      ∙ update-here p i v in
    rw (here, updates-map (update p i v) (i + 1) hi is vs r.2 (omega arith)) refl

-- The module's state once its calls are installed in the entries `r`.
abbrev pub installed : List ℕ → Kernel → List ℕ × ℕ → Kernel
installed calls k r = record k {
  table = updates k.table r.0 calls;
  saved = k.cr0;
  restore = r.0;
  ni_syscall = r.1;
  call_codes = r.0;
}

pub initialize_lem :
    (calls : List ℕ) (k : Kernel) (r : List ℕ × ℕ)
    → get_entries k.table hacked_entries ≡ some r
    → initialize_syscalls calls k ≡ done (pos 0) (installed calls k r)
unfolding initialize_syscalls unprotect_memory protect_memory
initialize_lem calls k r e = rw (
  e,
  initialize_syscalls,
  install_loop_lem r.0 calls
      (record k {
        saved = k.cr0;
        cr0 = k.cr0 - ((k.cr0 / 2 ^ 16) % 2) * 2 ^ 16;
        restore = r.0;
        ni_syscall = r.1;
      })
      (unprotected k.cr0),
)

-- When the search finds the entries `r` for the module's six calls, loading returns 0; the entries
-- recorded as the codes of the calls, and as those to restore, are the ones found, and they hold the
-- six calls in their order; every other entry of the table and CR0 are as they were.
pub initialize_syscalls-installed :
    (calls : List ℕ) (k : Kernel) (r : List ℕ × ℕ)
    → length calls ≡ hacked_entries
    → get_entries k.table hacked_entries ≡ some r
    → Returns
        (λ ret k'.
          (ret ≡ pos 0)
          × (k'.cr0 ≡ k.cr0)
          × (k'.call_codes ≡ r.0)
          × (k'.restore ≡ r.0)
          × (map k'.table r.0 ≡ calls)
          × ((j : ℕ) → among j r.0 ≡ false → k'.table j ≡ k.table j))
        (initialize_syscalls calls k)
initialize_syscalls-installed calls k r six e =
    let found = get_entries-Found k.table hacked_entries r e in
    rw (initialize_lem calls k r e) (
      refl,
      refl,
      refl,
      refl,
      updates-map k.table 0 256 r.0 calls found.rising (found.count ∙ sym six),
      updates-outside k.table r.0 calls,
    )

restore_lem :
    (k : Kernel)
    → restore_table k
      ≡ done tt (record k { saved = k.cr0; table = fill k.table k.restore k.ni_syscall })
unfolding restore_table unprotect_memory protect_memory
restore_lem k = rw (
    restore_loop_lem k.restore k.ni_syscall
      (record k { saved = k.cr0; cr0 = k.cr0 - ((k.cr0 / 2 ^ 16) % 2) * 2 ^ 16 })
      (unprotected k.cr0))

held_among :
    (p : Table) (v j : ℕ) (is : List ℕ) → All (λ i. p i ≡ v) is → among j is ≡ true → p j ≡ v
held_among p v j [] h a = cc
held_among p v j (i ∷ is) h a = ground (arith, held_among p v j is h.1)

-- Filling the changed entries with what they held gives the table back.
filled_back :
    (p : Table) (v : ℕ) (is vs : List ℕ) (j : ℕ)
    → All (λ i. p i ≡ v) is
    → fill (updates p is vs) is v j ≡ p j
filled_back p v is vs j h = elim (Bool-cases (among j is)) [
  | inl a ↦ fill_lem (updates p is vs) is v j ∙ rw a (sym (held_among p v j is h a))
  | inr a ↦ fill_lem (updates p is vs) is v j ∙ rw a (updates-outside p is vs j a)
]

-- Loading and, if that succeeded, unloading gives the system call table back, entry by entry, and
-- CR0 with it.
pub load_unload :
    (calls : List ℕ) (k : Kernel)
    → Returns
        (λ _ k'. ((j : ℕ) → k'.table j ≡ k.table j) × (k'.cr0 ≡ k.cr0))
        (and_then
          (initialize_syscalls calls k)
          (λ ret. if eq_pos ret 0 then restore_table else pure tt))
unfolding initialize_syscalls
load_unload calls k = elim (Option-cases (get_entries k.table hacked_entries)) [
  | inl e ↦ rw (e, initialize_syscalls) (λ j. refl, refl)
  | inr (r, e) ↦ loaded r e
]
  where
    loaded :
        (r : List ℕ × ℕ)
        → get_entries k.table hacked_entries ≡ some r
        → Returns
            (λ _ k'. ((j : ℕ) → k'.table j ≡ k.table j) × (k'.cr0 ≡ k.cr0))
            (and_then
              (initialize_syscalls calls k)
              (λ ret. if eq_pos ret 0 then restore_table else pure tt))
    loaded r e =
        rw (initialize_lem calls k r e, restore_lem (installed calls k r))
          (
            λ j.
                filled_back k.table r.1 r.0 calls j
                  (get_entries-Found k.table hacked_entries r e).held,
            refl,
          )

-- ===== src/SyscallTable.antt =====
-- reference-monitor/syscall-mount/scth.c, and the installation of the system calls in
-- reference-monitor/stack_reference_monitor.c: finding free entries of the kernel's system call
-- table, writing the module's calls into them, and putting the old content back.
--
-- The table is a function from indices to the addresses that it holds, of which the search reads
-- the first 256. The words are addresses; nothing is computed with them.
pub mod Entries
use reference_monitor.Base.{
  List, Option, [], if◌then◌else◌, length, ltb, none, some, suc, zero, ℕ, ◌++◌, ◌+◌, ◌-◌, ◌==◌, ◌∷◌,
}

abbrev pub Table : Type 0
Table = ℕ → ℕ

-- What is collected: the indices in `restore`, in order. `ret` and `j + 1` are both their number.
-- The third loop: `for (k = z + 1; k < 256 && j < num_acquires - 1; k++)`, `n` rounds before 256.
collect : (n k : ℕ) → Table → (value : ℕ) → (num : ℕ) → List ℕ → List ℕ
collect zero k p value num acc = acc
collect (suc n) k p value num acc =
    let rest = collect n (k + 1) p value num (if p k == value then acc ++ k ∷ [] else acc) in
    if ltb (length acc) num then rest else acc

-- `if (j < (num_acquires - 1)) { restore[++j] = i; ret++; }`
acquire : (num : ℕ) → ℕ → List ℕ → List ℕ
acquire num i acc = if ltb (length acc) num then acc ++ i ∷ [] else acc

-- What is done at the first two entries that agree, `i` and `z`: `none` is the return of -1.
settle : Table → (num i z : ℕ) → Option (List ℕ × ℕ)
unfolding collect acquire
settle p num i z =
    let acc = collect (255 - z) (z + 1) p (p i) num (acquire num z (acquire num i [])) in
    if length acc == num then some (acc, p i) else none

-- The second loop, `n` rounds before `z` reaches 256: `none` if no entry behind `i` agrees with it,
-- else what is done there.
inner : (n z : ℕ) → Table → (num i : ℕ) → Option (Option (List ℕ × ℕ))
unfolding settle
inner zero z p num i = none
inner (suc n) z p num i =
    let rest = inner n (z + 1) p num i in if p i == p z then some (settle p num i z) else rest

-- The first loop.
outer : (n i : ℕ) → Table → (num : ℕ) → Option (List ℕ × ℕ)
unfolding inner
outer zero i p num = none
outer (suc n) i p num =
    let rest = outer n (i + 1) p num in
    elim (inner (255 - i) (i + 1) p num i) [ none ↦ rest | some r ↦ r ]

-- `none` is the return of -1; otherwise the entries that were found, whose number is the result,
-- and the address that they hold.
unfoldable pub get_entries : Table → (num_acquires : ℕ) → Option (List ℕ × ℕ)
unfolding outer
get_entries p num = if ltb num 1 then none else if ltb 10 num then none else outer 256 0 p num

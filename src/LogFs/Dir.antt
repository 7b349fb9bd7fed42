-- ===== src/LogFs/Dir.antt =====
-- log-filesystem/dir.c: the listing of the root directory.
use reference_monitor.Base.{
  Bool, Bool-cases, List, [], arith, codes, false, if◌then◌else◌, inl, inr, leb, refl, subst, suc,
  sym, take, true, zero, ℕ, ◌++◌, ◌+◌, ◌==◌, ◌∷◌, ◌≡◌, ◌≤◌, ◌⊎◌,
}
use reference_monitor.LogFs.Mount.{unique_file_name}

pub record DirEntry : Type 0 where
  pub name : List ℕ
  pub ino : ℕ

-- `struct dir_context`: the position, and what reached the caller.
pub record DirContext : Type 0 where
  pub at : ℕ
  pub emitted : List DirEntry

-- FILENAME_MAXLEN, in log-filesystem/file_system.h
abbrev filename_maxlen : ℕ
filename_maxlen = 255

-- `dir_emit` is given a string literal and FILENAME_MAXLEN as the length of the name: the name is the
-- 255 bytes from the literal's address, its NUL and what lies `behind` it in memory included.
abbrev read_name : (behind : List ℕ → List ℕ) → (literal : List ℕ) → List ℕ
read_name behind literal = take filename_maxlen (literal ++ 0 ∷ behind literal)

abbrev pub entries : (behind : List ℕ → List ℕ) → List DirEntry
entries behind =
    record { name = read_name behind (codes "."); ino = 10 }
    ∷ record { name = read_name behind (codes ".."); ino = 1 }
    ∷ record { name = read_name behind unique_file_name; ino = 1 }
    ∷ []

-- `dir_emit`, which the kernel may refuse, and `ctx->pos++` where it does not
emit : (accepted : Bool) → DirEntry → DirContext → DirContext
emit accepted entry ctx =
    if accepted then record { at = ctx.at + 1; emitted = ctx.emitted ++ entry ∷ [] } else ctx

-- `if (ctx->pos == k) { if (!dir_emit(...)) return 0; else ctx->pos++; }`, then the rest
step : (accepts : ℕ → Bool) → ℕ → DirEntry → (DirContext → DirContext) → DirContext → DirContext
step accepts k entry next ctx =
    if ctx.at == k then (if accepts k then next (emit true entry ctx) else ctx) else next ctx

-- `accepts` says which of the entries the kernel has room for.
unfoldable pub onefilefs_iterate :
    (behind : List ℕ → List ℕ) → (accepts : ℕ → Bool) → DirContext → DirContext
unfolding step emit
onefilefs_iterate behind accepts ctx =
    if leb 3 ctx.at
    then ctx
    else step accepts 0 (record { name = read_name behind (codes "."); ino = 10 })
        (step accepts 1 (record { name = read_name behind (codes ".."); ino = 1 })
          (step accepts 2 (record { name = read_name behind unique_file_name; ino = 1 }) (λ c. c)))
        ctx

-- The caller has seen the first entries, as many as the position says.
abbrev pub Progress : (behind : List ℕ → List ℕ) → DirContext → Type 0
Progress behind ctx = (ctx.at ≤ 3) × (ctx.emitted ≡ take ctx.at (entries behind))

abbrev context : (behind : List ℕ → List ℕ) → ℕ → DirContext
context behind k = record { at = k; emitted = take k (entries behind) }

abbrev Step : (behind : List ℕ → List ℕ) → (accepts : ℕ → Bool) → DirContext → Type 0
Step behind accepts ctx =
    Progress behind (onefilefs_iterate behind accepts ctx)
    × (ctx.at ≤ (onefilefs_iterate behind accepts ctx).at)
    × (((onefilefs_iterate behind accepts ctx).at ≡ 3)
        ⊎ (accepts (onefilefs_iterate behind accepts ctx).at ≡ false))

step_lem :
    (behind : List ℕ → List ℕ) (accepts : ℕ → Bool) (k : ℕ)
    → k ≤ 3
    → Step behind accepts (context behind k)
unfolding onefilefs_iterate
step_lem behind accepts zero le = elim (Bool-cases (accepts 0)) [
  | inl a ↦ elim (Bool-cases (accepts 1)) [
    | inl b ↦ elim (Bool-cases (accepts 2)) [
      | inl c ↦ rw (a, b, c) ((omega arith, refl), omega arith, inl refl)
      | inr c ↦ rw (a, b, c) ((omega arith, refl), omega arith, inr c)
    ]
    | inr b ↦ rw (a, b) ((omega arith, refl), omega arith, inr b)
  ]
  | inr a ↦ rw a ((omega arith, refl), omega arith, inr a)
]
step_lem behind accepts (suc zero) le = elim (Bool-cases (accepts 1)) [
  | inl b ↦ elim (Bool-cases (accepts 2)) [
    | inl c ↦ rw (b, c) ((omega arith, refl), omega arith, inl refl)
    | inr c ↦ rw (b, c) ((omega arith, refl), omega arith, inr c)
  ]
  | inr b ↦ rw b ((omega arith, refl), omega arith, inr b)
]
step_lem behind accepts (suc (suc zero)) le = elim (Bool-cases (accepts 2)) [
  | inl c ↦ rw c ((omega arith, refl), omega arith, inl refl)
  | inr c ↦ rw c ((omega arith, refl), omega arith, inr c)
]
step_lem behind accepts (suc (suc (suc zero))) le = ((omega arith, refl), omega arith, inl refl)
step_lem behind accepts (suc (suc (suc (suc k)))) le = absurd (omega arith)

-- However often the kernel asks and wherever it stops, and whatever lies behind the literals in memory:
-- no entry comes twice or is left out. After a call, as before it, the caller has the first `ctx->pos`
-- entries, the name of each being the first 255 bytes of its literal, the NUL and what lies behind. The
-- position does not go back, and the call ends behind the third entry or at one that the kernel
-- refused.
pub onefilefs_iterate-Progress :
    (behind : List ℕ → List ℕ) (accepts : ℕ → Bool) (ctx : DirContext)
    → Progress behind ctx
    → Progress behind (onefilefs_iterate behind accepts ctx)
      × (ctx.at ≤ (onefilefs_iterate behind accepts ctx).at)
      × (((onefilefs_iterate behind accepts ctx).at ≡ 3)
          ⊎ (accepts (onefilefs_iterate behind accepts ctx).at ≡ false))
onefilefs_iterate-Progress behind accepts ctx (le, e) =
    subst (λ x. Step behind accepts (record { at = ctx.at; emitted = x })) (sym e)
      (step_lem behind accepts ctx.at le)

-- ===== src/DentryPath.antt =====
-- `get_path_from_dentry` of reference-monitor/utils/utils.c.
use reference_monitor.Base.{
  All, Bool, List, Option, [], arith, if◌then◌else◌, none, some, true, ℕ, ◌++◌, ◌<◌, ◌==◌, ◌∷◌, ◌≡◌,
}
use reference_monitor.CString.{c_str}
use reference_monitor.Monitor.{FilePath}

-- What the kernel answers to one call: the page, the path that `dentry_path_raw` finds (`none`
-- for an error pointer), the memory for the copy, and what that memory holds at index `len`.
pub record PathEnv : Type 0 where
  pub page : Bool
  pub raw : Option FilePath
  pub buffer : Bool
  pub junk : ℕ

-- `strncpy` of `len` bytes writes no terminator, and the terminator goes to index `len + 1`: the
-- byte between them stays as `kmalloc` handed it out. `none` is a NULL result.
unfoldable pub get_path_from_dentry : PathEnv → Option FilePath
get_path_from_dentry e =
    if e.page
    then elim e.raw [
      | none ↦ none
      | some s ↦ if e.buffer then c_str (s ++ e.junk ∷ 0 ∷ []) else none
    ]
    else none

-- A string holds no terminator.
abbrev pub NoZero : List ℕ → Type 0
NoZero s = All (λ c. 0 < c) s

c_str-junk :
    (s : FilePath) (junk : ℕ)
    → NoZero s
    → c_str (s ++ junk ∷ 0 ∷ []) ≡ some (if junk == 0 then s else s ++ junk ∷ [])
unfolding c_str
c_str-junk [] junk h = ground arith
c_str-junk (c ∷ s) junk h = ground (arith, c_str-junk s junk h.1)

-- When the kernel gives memory and a path, the result is that path if the byte behind it happens
-- to be 0, and otherwise the path with that byte at its end.
pub get_path_from_dentry_lem :
    (e : PathEnv) (s : FilePath)
    → e.page ≡ true
    → e.raw ≡ some s
    → e.buffer ≡ true
    → NoZero s
    → get_path_from_dentry e ≡ some (if e.junk == 0 then s else s ++ e.junk ∷ [])
unfolding get_path_from_dentry
get_path_from_dentry_lem e s pg rw_ bf nz = rw (pg, rw_, bf) (c_str-junk s e.junk nz)

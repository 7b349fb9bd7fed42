-- ===== src/UserPrograms/Paths.antt =====
-- reference-monitor/user/user.c and remove.c: the programs that add and remove a path with fixed
-- arguments. What they print is not part of the model.
-- `ret == -1` after `syscall`
use reference_monitor.Base.{
  Bool, List, Option, arith, codes, false, if◌then◌else◌, length, ltb, none, not, refl, some, true,
  ℕ, ◌++◌, ◌<◌, ◌^◌, ◌||◌, ◌≡◌, ◌≤◌,
}
use reference_monitor.Access.Cover.{Covers, covered, covered_by}
use reference_monitor.Base.Int.{eexist, int_of, negsuc, pos, ℤ}
use reference_monitor.Blacklist.{AddEnv, Block, RemoveEnv}
use reference_monitor.Blacklist.Add.{Granted}
use reference_monitor.Blacklist.Keeps.{size_after-le, with_path}
use reference_monitor.Blacklist.Unique.{with_path-contains}
use reference_monitor.CString.{c_str}
use reference_monitor.Checks.{is_rf_rec}
use reference_monitor.Client.{is_minus, reply_of}
use reference_monitor.Monitor.{FilePath, null}
use reference_monitor.Monitor.Chain.{Cells, IsList, paths}
use reference_monitor.Monitor.Edit.{contains, erase_cell}
use reference_monitor.Monitor.Invariant.{Holds}
use reference_monitor.Password.{PasswordEnv, Sha256, hex}
use reference_monitor.Password.Check.{Answered}
use reference_monitor.Run.{Cmd, Returns, Returns-bind, fail, null_deref, overflow, pure, ◌>>=◌}
use reference_monitor.Syscalls.{
  World, sys_add_to_blacklist, sys_get_blacklist_size, sys_remove_from_blacklist,
}
use reference_monitor.Syscalls.Grant.{granted-Removed, sys_add_to_blacklist-Added}

abbrev failed : ℤ → Bool
failed r = is_minus (reply_of r).ret

-- "/home/stack1/Desktop/rf/"
abbrev pub rf_dir : FilePath
rf_dir = codes "/home/stack1/Desktop/rf/"

-- user.c: whether `getpwuid` finds the user, whose name is not used; the result of `main`.
unfoldable pub add_program :
    {S : Type 0}
    → (getpwuid : Bool) → (add_call : FilePath → (password : List ℕ) → Cmd S ℤ) → Cmd S ℤ
add_program getpwuid add_call =
    if not getpwuid
    then pure (negsuc 0)
    else do r ← add_call rf_dir (codes "pippo"); pure (if failed r then pos 1 else pos 0)

-- "/home/%s/Desktop/rf/"
login_dir : List ℕ → FilePath
login_dir login = codes "/home/" ++ login ++ codes "/Desktop/rf/"

-- remove.c: `getlogin` may give NULL, and the path is printed into 256 bytes. The second call gives 1
-- for the buffer and no size.
remove_program :
    {S : Type 0}
    → (getlogin : Option (List ℕ)) → (remove_call : FilePath → (password : List ℕ) → Cmd S ℤ)
    → (print_call size_call : Cmd S ℤ) → Cmd S ℤ
unfolding login_dir
remove_program none remove_call print_call size_call = fail null_deref
remove_program (some login) remove_call print_call size_call =
    if ltb 255 (length (login_dir login)) then fail overflow else do
      ret_remove ← remove_call (login_dir login) (codes "1234")
      ret_print ← print_call
      ret_size ← size_call
      pure (if failed ret_remove || failed ret_print || failed ret_size then pos 1 else pos 0)

added_status :
    (known : Bool) (r : ℤ)
    → r ≡ (if known then eexist else pos 0)
    → (if failed r then pos 1 else pos 0) ≡ (if known then pos 1 else pos 0)
unfolding reply_of
added_status true r e = rw e
added_status false r e = rw e

code-failed : (known : Bool) (r : ℤ) → r ≡ (if known then pos 0 else pos 1) → failed r ≡ false
unfolding reply_of
code-failed true r e = rw e
code-failed false r e = rw e

count-failed : (n : ℕ) → n < 2 ^ 31 → failed (int_of n) ≡ false
unfolding reply_of
count-failed n lt = let positive : ltb n (2 ^ 31) ≡ true = ground arith in rw positive

module _ (fuel : ℕ) (sha : Sha256) (w : World) (xs : Cells) where
  -- The monitor keeps the digest of "pippo", is well-formed with fuel for its list, and in a
  -- reconfiguration state; the kernel finds the user, who is root, and answers the password check,
  -- copies the path and gives a fresh node that happens to hold NULL. Then user.c comes back, with 1
  -- if its directory was in the list and 0 otherwise. The list is as it was or has the directory
  -- behind its last node; either way it covers each path that the directory covers.
  pub add_program-Protects :
      (password : List ℕ → PasswordEnv) (e : FilePath → AddEnv) (b : Block) (path : FilePath)
      → Answered (password (codes "pippo")) (codes "pippo")
      → w.rf.password ≡ some (hex (sha.digest (codes "pippo")))
      → is_rf_rec w.rf ≡ pos 0
      → Holds w.rf xs
      → Granted (e rf_dir) xs rf_dir b
      → b.stale ≡ null
      → length xs ≤ fuel
      → Covers rf_dir path
      → Returns
          (λ r w'.
            (r ≡ (if contains rf_dir (paths xs) then pos 1 else pos 0))
            × IsList w'.rf (with_path rf_dir b.address xs)
            × (covered path (paths (with_path rf_dir b.address xs)) ≡ true))
          (add_program true (λ s psw. sys_add_to_blacklist fuel sha (password psw) 0 (e s)) w)
  unfolding add_program reply_of
  add_program-Protects password e b path a kept rec h g st lt cov =
      Returns-bind _ _ (sys_add_to_blacklist fuel sha (password (codes "pippo")) 0 (e rf_dir) w) _
        (sys_add_to_blacklist-Added fuel sha w (password (codes "pippo")) (codes "pippo")
          (codes "pippo") (e rf_dir) xs rf_dir b a kept refl rec h g st lt)
        (λ r w' (ad, same). (
          added_status (contains rf_dir (paths xs)) r ad.0,
          ad.1,
          covered_by path rf_dir (paths (with_path rf_dir b.address xs))
              (with_path-contains rf_dir b.address xs) cov,
        ))

  -- The monitor keeps the digest of "1234", is well-formed with a count that is a positive `int`, and
  -- in a reconfiguration state; the kernel answers root, and the call that prints gives `code` and
  -- changes nothing. Then remove.c comes back, with 1 if `code` is an error and 0 otherwise: the status
  -- does not depend on whether the directory was in the list, from which its first occurrence is gone.
  remove_program-Removed :
      (password : List ℕ → PasswordEnv) (e : FilePath → RemoveEnv) (login : List ℕ) (code : ℤ)
      → length (login_dir login) ≤ 255
      → Answered (password (codes "1234")) (codes "1234")
      → w.rf.password ≡ some (hex (sha.digest (codes "1234")))
      → is_rf_rec w.rf ≡ pos 0
      → Holds w.rf xs
      → w.rf.size < 2 ^ 31
      → (e (login_dir login)).buffer ≡ true
      → (e (login_dir login)).copy.left ≤ 4096
      → c_str (e (login_dir login)).copy.bytes ≡ some (login_dir login)
      → length xs < fuel
      → Returns
          (λ r w'.
            (r ≡ (if failed code then pos 1 else pos 0))
            × IsList w'.rf (erase_cell (login_dir login) xs))
          (remove_program
            (some login)
            (λ s psw. sys_remove_from_blacklist fuel sha (password psw) 0 (e s))
            (pure code)
            sys_get_blacklist_size
            w)
  unfolding remove_program sys_get_blacklist_size
  remove_program-Removed password e login code short a kept rec h small buf few str lt =
      let fits : ltb 255 (length (login_dir login)) ≡ false = ground arith in
      rw fits (
        Returns-bind _ _
          (sys_remove_from_blacklist fuel sha (password (codes "1234")) 0 (e (login_dir login)) w) _
          (granted-Removed fuel sha w (password (codes "1234")) (codes "1234") (codes "1234")
            (e (login_dir login)) xs (login_dir login) a kept refl rec h buf few str lt)
          (λ r w' (ret, (c, re), same).
            let below = size_after-le (login_dir login) xs w.rf.size h.counted h.fits in
            let counted : failed (int_of w'.rf.size) ≡ false =
              count-failed w'.rf.size (omega (arith, re.2)) in
            let taken = code-failed (contains (login_dir login) (paths xs)) r ret in
            (rw (taken, counted) (ground arith), re.1)))

-- ===== src/Client/Calls.antt =====
-- The client's side of the calls that change and show the list, in client/client.c.
pub mod Keeps
use reference_monitor.Base.{List, Option, [], drop, if◌then◌else◌, length, none, some, ℕ, ◌++◌}
use reference_monitor.Base.Int.{pos, ℤ}
use reference_monitor.CString.{c_str}
use reference_monitor.Client.{is_minus, reply_of}
use reference_monitor.Run.{Cmd, fail, null_deref, overrun, pure, ◌>>=◌, ◌>>◌}

-- What the client makes of `ret`: `EXIT_FAILURE` after an error
unfoldable pub result_of : {S : Type 0} → (sys_call : Cmd S ℤ) → Cmd S ℤ
result_of sys_call = do
  r ← sys_call
  if is_minus (reply_of r).ret then pure (pos 1) else pure (reply_of r).ret

unfoldable pub add_to_blacklist : {S : Type 0} → (add_call : Cmd S ℤ) → Cmd S ℤ
unfolding result_of
add_to_blacklist add_call = result_of add_call

-- The result 1 for an unknown path differs from the others only in what is printed.
unfoldable pub remove_from_blacklist : {S : Type 0} → (remove_call : Cmd S ℤ) → Cmd S ℤ
unfolding result_of
remove_from_blacklist remove_call = result_of remove_call

-- `printf("%s", blacklist)`, for the string at that address
printed : {S : Type 0} → Option (List ℕ) → Cmd S (List ℕ)
printed none = fail overrun
printed (some s) = pure s

-- The kernel wrote `user` to the start of the buffer.
shown : {S : Type 0} → (memory : Option (List ℕ)) → (user : List ℕ) → Cmd S (List ℕ)
unfolding printed
shown none user = fail null_deref
shown (some held) user = printed (c_str (user ++ drop (length user) held))

-- The text that is printed, empty after an error. `memory` is what `malloc` gives, with what it holds.
unfoldable pub print_blacklist :
    {S : Type 0}
    → (size_call : Cmd S ℤ) → (print_call : ℤ → Cmd S (ℤ × List ℕ)) → (memory : Option (List ℕ))
    → Cmd S (List ℕ)
unfolding shown
print_blacklist size_call print_call memory = do
  r ← size_call
  if is_minus (reply_of r).ret then pure [] else do
    p ← print_call (reply_of r).ret
    if is_minus (reply_of p.0).ret then pure [] else shown memory p.1

-- ===== src/Client.antt =====
-- client/client.c: how the client reads the answers of two system calls. A call goes through the C
-- library's `syscall`, which turns a small negative result into -1 and an `errno`. What the client
-- prints is not part of the model.
pub mod Answers
pub mod Calls
pub mod Getpasswd
pub mod Home
pub mod Kernel
pub mod Menu
pub mod Modules
pub mod Text
use reference_monitor.Base.{Bool, false, if◌then◌else◌, ltb, not, ℕ, ◌&&◌, ◌+◌, ◌==◌}
use reference_monitor.Base.Int.{gt_pos, lt_pos, negsuc, pos, ℤ}
use reference_monitor.Run.{Cmd, pure, ◌>>=◌}

-- `ret` and `errno` after `syscall`
pub record Reply : Type 0 where
  pub ret : ℤ
  pub errno : ℕ

-- The kernel's results from -4095 to -1 are error codes.
unfoldable pub reply_of : ℤ → Reply
reply_of (pos n) = record { ret = pos n; errno = 0 }
reply_of (negsuc n) =
    if ltb n 4095
    then record { ret = negsuc 0; errno = n + 1 }
    else record { ret = negsuc n; errno = 0 }

abbrev pub is_minus : ℤ → Bool
is_minus (pos n) = false
is_minus (negsuc n) = n == 0

-- `HOME_VALUE` and `WRONG_EUID_VALUE`
abbrev pub home_value : ℤ
home_value = pos 8888

abbrev pub wrong_euid_value : ℤ
wrong_euid_value = pos 7777

change_reply : Reply → ℤ
change_reply r =
    if not (is_minus r.ret)
    then pos 0
    else if r.errno == 13
    then home_value
    else if r.errno == 1
    then wrong_euid_value
    else r.ret

-- `switch_call` is the kernel's side of the call.
unfoldable pub change_state : {S : Type 0} → (switch_call : ℤ → Cmd S ℤ) → (rf_state : ℤ) → Cmd S ℤ
unfolding change_reply
change_state switch_call rf_state =
    if lt_pos rf_state 0 && gt_pos rf_state 3
    then pure (pos 1)
    else do r ← switch_call rf_state; pure (change_reply (reply_of r))

-- `EXIT_FAILURE` after an error, otherwise the state
unfoldable pub get_rf_state : {S : Type 0} → (get_call : Cmd S ℤ) → Cmd S ℤ
get_rf_state get_call = do
  r ← get_call
  if is_minus (reply_of r).ret then pure (pos 1) else pure (reply_of r).ret

-- ===== src/Client/Home.antt =====
-- The second screen of client/client.c: `get_function_number`, and the second switch of `main`.
-- `FFLUSH` takes the rest of the line that was typed, so the keys of a `Tty` are those behind it.
pub mod Exit
pub mod Keeps
pub mod Switch
use reference_monitor.Base.{
  Bool, List, Option, if◌then◌else◌, length, ltb, none, some, true, ℕ, ◌&&◌, ◌||◌,
}
use reference_monitor.Base.Int.{eq_pos, gt_pos, lt_pos, negsuc, ℤ}
use reference_monitor.Client.{change_state, get_rf_state, is_minus}
use reference_monitor.Client.Calls.{add_to_blacklist, print_blacklist, remove_from_blacklist}
use reference_monitor.Client.Getpasswd.{Tty, TtyEnv, getpasswd, max_pass_len}
use reference_monitor.Client.Modules.{Command, Screen, exit_value, home, modules, stopped}
use reference_monitor.Run.{Cmd, Run, done, fail, fault, null_deref, overflow, pure, ◌>>=◌, ◌>>◌}

-- The system calls as the client makes them, over the kernel's state: each with its arguments, the
-- password as the bytes of its buffer.
pub record SysCalls (S : Type 0) : Type 0 where
  pub switch_call : ℤ → (password : List ℕ) → Cmd S ℤ
  pub get_call : Cmd S ℤ
  pub add_call : (path password : List ℕ) → Cmd S ℤ
  pub remove_call : (path password : List ℕ) → Cmd S ℤ
  pub size_call : Cmd S ℤ
  pub print_call : ℤ → Cmd S (ℤ × List ℕ)

-- The kernel's state, the terminal with `psw` as its buffer, and the command lines so far.
pub record Session (S : Type 0) : Type 0 where
  pub kernel : S
  pub tty : Tty
  pub commands : List Command

-- What is typed and what the C library grants on one turn: the number of the function and of the
-- state, the path, the terminal, and the memory for the list.
pub record HomeInput : Type 0 where
  pub number : ℤ
  pub state : ℤ
  pub path : List ℕ
  pub env : TtyEnv
  pub memory : Option (List ℕ)

is_plain_state : ℤ → Bool
is_plain_state rf_state = eq_pos rf_state 0 || eq_pos rf_state 1

is_rec_state : ℤ → Bool
is_rec_state rf_state = eq_pos rf_state 2 || eq_pos rf_state 3

-- What `get_function_number` makes of the number that is typed
unfoldable pub choose : (rf_state number : ℤ) → ℤ
unfolding is_plain_state is_rec_state
choose rf_state number =
    let input_number = if lt_pos number 1 then negsuc 0 else number in
    if eq_pos input_number 3 && is_plain_state rf_state
    then exit_value
    else if eq_pos input_number 6 && is_rec_state rf_state
    then exit_value
    else input_number

unfoldable pub get_function_number : {S : Type 0} → (get_call : Cmd S ℤ) → (number : ℤ) → Cmd S ℤ
get_function_number get_call number = do
  rf_state ← get_rf_state get_call
  pure (choose rf_state number)

module _ {S : Type 0} where
  with_kernel : {A : Type 0} → Session S → Run S A → Run (Session S) A
  with_kernel s (done a k) = done a (record s { kernel = k })
  with_kernel s (fault f) = fault f

  with_tty : {A : Type 0} → Session S → Run Tty A → Run (Session S) A
  with_tty s (done a t) = done a (record s { tty = t })
  with_tty s (fault f) = fault f

  on_kernel : {A : Type 0} → Cmd S A → Cmd (Session S) A
  unfolding with_kernel
  on_kernel c s = with_kernel s (c s.kernel)

  on_tty : {A : Type 0} → Cmd Tty A → Cmd (Session S) A
  unfolding with_tty
  on_tty c s = with_tty s (c s.tty)

  psw_of : Option (List ℕ) → Cmd (Session S) (List ℕ)
  psw_of none = fail null_deref
  psw_of (some b) = pure b

  -- The bytes of `psw`
  get_psw : Cmd (Session S) (List ℕ)
  unfolding psw_of
  get_psw s = psw_of s.tty.buffer s

  -- `nchr = getpasswd(&password, MAX_PASS_LEN, '*', fp); if (nchr == 0) goto HOME;`
  with_password : TtyEnv → (List ℕ → Cmd (Session S) Screen) → Cmd (Session S) Screen
  unfolding on_tty get_psw
  with_password e next = do
    nchr ← on_tty (getpasswd e true max_pass_len true)
    if eq_pos nchr 0 then pure home else do psw ← get_psw; next psw

  -- `scanf("%s", path)` into 4096 bytes
  with_path : List ℕ → Cmd (Session S) Screen → Cmd (Session S) Screen
  with_path path next = if ltb 4095 (length path) then fail overflow else next

  go_home : {A : Type 0} → A → Cmd (Session S) Screen
  go_home r = pure home

  after_switch : ℤ → Cmd (Session S) Screen
  after_switch ret =
      if eq_pos ret 0
      then pure home
      else if eq_pos ret 7777 || eq_pos ret 8888
      then pure home
      else pure (stopped 1)

  switch_turn : SysCalls S → HomeInput → Cmd (Session S) Screen
  unfolding with_password on_kernel after_switch
  switch_turn k i =
      if lt_pos i.state 0 || gt_pos i.state 3
      then pure home
      else with_password i.env λ psw. do
        ret ← on_kernel (change_state (λ rf_state. k.switch_call rf_state psw) i.state)
        after_switch ret

  -- The second switch of `main`, for the number that `get_function_number` returned
  home_case : SysCalls S → HomeInput → ℤ → Cmd (Session S) Screen
  unfolding switch_turn with_path with_password on_kernel go_home
  home_case k i number =
      if is_minus number
      then pure home
      else if eq_pos number 1
      then switch_turn k i
      else if eq_pos number 2
      then (on_kernel (get_rf_state k.get_call) >>= go_home)
      else if eq_pos number 3
      then with_path i.path (
          with_password i.env
            λ psw. on_kernel (add_to_blacklist (k.add_call i.path psw)) >>= go_home)
      else if eq_pos number 4
      then with_path i.path (
          with_password i.env
            λ psw. on_kernel (remove_from_blacklist (k.remove_call i.path psw)) >>= go_home)
      else if eq_pos number 5
      then (on_kernel (print_blacklist k.size_call k.print_call i.memory) >>= go_home)
      else if eq_pos number 9999
      then pure modules
      else pure home

  unfoldable pub home_turn : SysCalls S → HomeInput → Cmd (Session S) Screen
  unfolding home_case on_kernel
  home_turn k i = do
    number ← on_kernel (get_function_number k.get_call i.number)
    home_case k i number

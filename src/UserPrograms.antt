-- ===== src/UserPrograms.antt =====
-- reference-monitor/user/switch_reconfigure.c: the program that switches the state from a command
-- line. What it prints is not part of the model.
pub mod ExitStatus
pub mod Files
pub mod Paths
use reference_monitor.Base.{List, [], if◌then◌else◌, ℕ, ◌∷◌}
use reference_monitor.Base.Int.{ℤ}
use reference_monitor.Client.{is_minus, reply_of}
use reference_monitor.Client.Text.{strtol_int}
use reference_monitor.Run.{Cmd, pure, ◌>>=◌, ◌>>◌}

-- `strtol(argv[1], NULL, 0)`, with -1 taken for an error; `passw` is not NULL.
switch_to :
    {S : Type 0}
    → (switch_call : ℤ → (password : List ℕ) → Cmd S ℤ) → (state : ℤ) → List ℕ
    → Cmd S ℕ
switch_to switch_call state passw =
    if is_minus state
    then pure 1
    else do r ← switch_call state passw; if is_minus (reply_of r).ret then pure 1 else pure 0

-- The exit status of `main`
unfoldable pub switch_program :
    {S : Type 0}
    → (switch_call : ℤ → (password : List ℕ) → Cmd S ℤ) → (argv : List (List ℕ)) → Cmd S ℕ
unfolding switch_to
switch_program switch_call (program ∷ state ∷ passw ∷ []) =
    switch_to switch_call (strtol_int state) passw
switch_program switch_call other = pure 1

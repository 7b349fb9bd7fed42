-- ===== src/Client/Modules.antt =====
-- The first screen of client/client.c: `display_module_info`, which reads a command, and the part of
-- `main` that carries it out.
pub mod Exit
pub mod Screens
use reference_monitor.Base.{
  Bool, List, Option, codes, if◌then◌else◌, length, ltb, none, not, some, take, ℕ, ◌&&◌, ◌||◌,
}
use reference_monitor.Base.Int.{eq_pos, gt_pos, lt_pos, negsuc, pos, ℤ}
use reference_monitor.CString.{c_str, str_eq}
use reference_monitor.Client.{home_value, is_minus}
use reference_monitor.Client.Text.{strtok, strtol_int}
use reference_monitor.Run.{Cmd, fail, null_deref, overflow, overrun, pure, ◌>>=◌, ◌>>◌}

-- The entries of /sys/module that are there.
pub record Loaded : Type 0 where
  pub discoverer : Bool
  pub file_system : Bool
  pub monitor : Bool

abbrev pub all_loaded : Loaded → Bool
all_loaded l = l.discoverer && (l.file_system && l.monitor)

pub record ModInfo : Type 0 where
  pub command : List ℕ
  pub mod_number : ℤ

-- What is there: the modules, the line that is typed (`none` at the end of the input), and what
-- `input_string` and `mod_number` hold before they are set.
pub record ModulesInput : Type 0 where
  pub loaded : Loaded
  pub line : Option (List ℕ)
  pub stale_string : List ℕ
  pub stale_number : ℤ

-- `EXIT_VALUE`
abbrev pub exit_value : ℤ
exit_value = pos 9999

-- What `input_string` still holds, as a string
stale_line : {S : Type 0} → (held : Option (List ℕ)) → Cmd S (List ℕ)
stale_line none = fail overrun
stale_line (some s) = pure s

-- `scanf(" %1023[^\n]", input_string)` into 256 bytes
read_line : {S : Type 0} → (line held : Option (List ℕ)) → Cmd S (List ℕ)
unfolding stale_line
read_line (some s) held = if ltb 255 (length s) then fail overflow else pure s
read_line none held = stale_line held

-- `strncpy(mod_info->command, command, sizeof(command))`, where `command` is a pointer
unfoldable pub mod_info : (command : List ℕ) → ℤ → ModInfo
mod_info command n = record { command = take 8 command; mod_number = n }

is_install : List ℕ → Bool
is_install command = str_eq command (codes "install")

is_remove : List ℕ → Bool
is_remove command = str_eq command (codes "remove")

-- `strtol(strtok(NULL, " "), NULL, 0)`
read_number : {S : Type 0} → (rest : List ℕ) → Cmd S ℤ
read_number rest = elim (strtok rest) [
  | none ↦ fail null_deref
  | some (word, rest') ↦ pure (strtol_int word)
]

interpret : {S : Type 0} → ModulesInput → (command rest : List ℕ) → Cmd S (ℤ × ModInfo)
interpret i command rest =
    if str_eq command (codes "exit")
    then pure (exit_value, mod_info command i.stale_number)
    else if all_loaded i.loaded && str_eq command (codes "home")
    then pure (home_value, mod_info command i.stale_number)
    else if not (is_install command) && not (is_remove command)
    then pure (negsuc 0, mod_info command i.stale_number)
    else do
      n ← read_number rest
      if lt_pos n 1 || gt_pos n 3
          then pure (negsuc 0, mod_info command n)
          else pure (pos 0, mod_info command n)

unfoldable pub display_module_info : {S : Type 0} → ModulesInput → Cmd S (ℤ × ModInfo)
unfolding read_line is_install is_remove read_number interpret
display_module_info i = do
  s ← read_line i.line (c_str i.stale_string)
  elim (strtok s) [ none ↦ fail null_deref | some (command, rest) ↦ interpret i command rest ]

-- The screens, and the end of the program with its exit status.
pub data Screen : Type 0 where
  modules home : Screen
  stopped : ℕ → Screen

-- A command line that is handed to `system`, for the module with this number.
pub data Command : Type 0 where
  make rmmod : ℕ → Command

by_number : ℤ → (ℕ → Command) → Option Command
by_number n c =
    if eq_pos n 1
    then some (c 1)
    else if eq_pos n 2
    then some (c 2)
    else if eq_pos n 3
    then some (c 3)
    else none

-- `case 0:` of the first switch of `main`
carry_out : ModInfo → Option Command
unfolding by_number
carry_out m =
    if is_install m.command
    then by_number m.mod_number make
    else if is_remove m.command
    then by_number m.mod_number rmmod
    else none

-- The first switch of `main`, with the `do` loop around the display: the command line, if there is
-- one, and the screen that comes next.
unfoldable pub modules_next : ℤ → ModInfo → Option Command × Screen
unfolding carry_out is_install is_remove
modules_next ret m =
    if eq_pos ret 0
    then elim (carry_out m) [ none ↦ (none, stopped 1) | some c ↦ (some c, modules) ]
    else if eq_pos ret 8888
    then (none, home)
    else if eq_pos ret 9999
    then (none, stopped 0)
    else if is_minus ret
    then (none, modules)
    else (none, stopped 1)

unfoldable pub modules_turn : {S : Type 0} → ModulesInput → Cmd S (Option Command × Screen)
modules_turn i = do r ← display_module_info i; pure (modules_next r.0 r.1)

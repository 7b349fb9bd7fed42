-- ===== src/Tests/Menu.antt =====
-- The client's screens and its password editor at concrete inputs.
use reference_monitor.Base.{
  List, [], arith, codes, false, none, refl, replicate, some, true, ℕ, ◌++◌, ◌∷◌, ◌≡◌,
}
use reference_monitor.Base.Int.{negsuc, pos}
use reference_monitor.CString.{c_str, str_eq}
use reference_monitor.Checks.{is_rf_rec, rf_state_check}
use reference_monitor.Client.Answers.{root}
use reference_monitor.Client.Getpasswd.{Tty, TtyEnv, getpasswd}
use reference_monitor.Client.Getpasswd.Editor.{edit, rev_append}
use reference_monitor.Client.Getpasswd.Line.{IsSized, NoNull, Typed, Works, getpasswd-Typed, typed}
use reference_monitor.Client.Home.{HomeInput, Session, home_turn}
use reference_monitor.Client.Home.Switch.{Hears, Switched, home_turn-Switched}
use reference_monitor.Client.Home.Switch.Paths.{Listed, home_turn-Added, home_turn-Removed}
use reference_monitor.Client.Kernel.{Answers, KernelEnv, Turns-no_root, answers, kernel_calls}
use reference_monitor.Client.Menu.{Turns, client_turn, stay, turn}
use reference_monitor.Client.Menu.Exit.{Turns-exit}
use reference_monitor.Client.Modules.{
  Loaded, ModulesInput, display_module_info, home, make, mod_info, modules, modules_next,
  modules_turn, stopped,
}
use reference_monitor.Client.Text.{strtok, strtol_int}
use reference_monitor.Monitor.Edit.{contains, erase_cell}
use reference_monitor.Probes.Table.{kprobe_array}
use reference_monitor.Run.{Returns, done}
use reference_monitor.Syscalls.{World, sys_get_rf_state}
use reference_monitor.Syscalls.Grant.{probes_for}
use reference_monitor.Tests.Data.{
  add_env, api, block_3, cells, demo-Holds, dir_b, file_a, hash_env, inside_b, inside_b-Granted,
  remove_env, secret, sha, world,
}

strtok_words : strtok (codes "  install 2 x") ≡ some (codes "install", codes "2 x")
unfolding strtok
strtok_words = refl

strtok_blank : strtok (codes "   ") ≡ none
unfolding strtok
strtok_blank = refl

strtol_int_hex : strtol_int (codes "0x11") ≡ pos 17
unfolding strtol_int
strtol_int_hex = refl

strtol_int_octal : strtol_int (codes "010z") ≡ pos 8
unfolding strtol_int
strtol_int_octal = refl

strtol_int_minus : strtol_int (codes "-3") ≡ negsuc 2
unfolding strtol_int
strtol_int_minus = refl

strtol_int_none : strtol_int (codes "abc") ≡ pos 0
unfolding strtol_int
strtol_int_none = refl

abbrev works : TtyEnv
works = record { memory = true; get = true; set_raw = true; reset = true }

works-Works : Works works
works-Works = record { get = refl; set_raw = refl; reset = refl }

-- A terminal on which `keys` are typed, with the buffer of `main`
abbrev tty_with : List ℕ → Tty
tty_with keys = record { input = keys; buffer = some (replicate 32 0); raw = false }

-- "pilpo" with "l" deleted and "p" in its place, and a command behind the line
abbrev keys : List ℕ
keys = codes "pil" ++ 127 ∷ codes "ppo" ++ 10 ∷ codes "1"

keys-NoNull : NoNull keys
keys-NoNull = (
  omega arith,
  (
    omega arith,
    (
      omega arith,
      (omega arith, (omega arith, (omega arith, (omega arith, (omega arith, (omega arith, tt)))))),
    ),
  ),
)

typed-keys : typed 31 keys ≡ secret
unfolding edit rev_append
typed-keys = refl

getpasswd-Typed_example :
    Returns (Typed 32 (tty_with keys)) (getpasswd works true 32 true (tty_with keys))
getpasswd-Typed_example =
    getpasswd-Typed works 32 (tty_with keys) (replicate 32 0) works-Works refl refl (omega arith)
      (omega arith) keys-NoNull

abbrev loaded : Loaded
loaded = record { discoverer = true; file_system = true; monitor = true }

abbrev typed_line : List ℕ → ModulesInput
typed_line s = record { loaded = loaded; line = some s; stale_string = []; stale_number = pos 0 }

abbrev install_2 : ModulesInput
install_2 = typed_line (codes "install 2")

-- The kernel copies what it is handed and grants everything.
abbrev kernel_env : KernelEnv
kernel_env = record {
  password =
      λ psw. record { buffer = true; copy = record { left = 0; bytes = psw }; hash = hash_env };
  added = add_env;
  removed = remove_env;
  state_string = true;
  printing = record { buffer = true; enlarged = λ _. true; stale = some []; left = 0 };
}

hears : Hears kernel_env
hears psw s e = record {
  buffer = refl;
  copied = refl;
  terminated = e;
  transform = refl;
  desc = refl;
  digest_buffer = refl;
  status = refl;
  result = refl;
}

abbrev session : Session World
session = record { kernel = world; tty = tty_with keys; commands = [] }

session-IsSized : IsSized session.tty
session-IsSized = (replicate 32 0, refl, refl)

abbrev picked : HomeInput
picked = record { number = pos 1; state = pos 1; path = []; env = works; memory = none }

home_turn-Switched_example :
    Returns
      (Switched 1 (pos 0) session)
      (home_turn (kernel_calls 5 sha api 0 kernel_env) picked session)
unfolding rf_state_check
home_turn-Switched_example =
    home_turn-Switched 5 sha api 0 kernel_env picked session secret 1 (pos 0)
      (probes_for api (pos 2) kprobe_array) hears refl refl refl refl
      (root (rw typed-keys refl) refl refl) refl refl works-Works session-IsSized keys-NoNull
      (rw typed-keys (omega arith))

-- The third entry, with a path; and the fourth, with one that is in the list.
abbrev adding_a : HomeInput
adding_a = record picked { number = pos 3; path = inside_b }

abbrev removing_b : HomeInput
removing_b = record picked { number = pos 4; path = dir_b }

home_turn-Added_example :
    Returns
      (Listed ((1, file_a) ∷ (2, dir_b) ∷ (3, inside_b) ∷ []) session)
      (home_turn (kernel_calls 5 sha api 0 kernel_env) adding_a session)
unfolding is_rf_rec str_eq contains
home_turn-Added_example =
    home_turn-Added 5 sha api kernel_env adding_a session secret cells hears refl
      (rw typed-keys refl) refl demo-Holds refl (omega arith) works-Works session-IsSized
      keys-NoNull (rw typed-keys (omega arith)) block_3 refl inside_b-Granted refl (omega arith)

home_turn-Removed_example :
    Returns
      (Listed ((1, file_a) ∷ []) session)
      (home_turn (kernel_calls 5 sha api 0 kernel_env) removing_b session)
unfolding is_rf_rec str_eq erase_cell c_str
home_turn-Removed_example =
    home_turn-Removed 5 sha api kernel_env removing_b session secret cells hears refl
      (rw typed-keys refl) refl demo-Holds refl (omega arith) works-Works session-IsSized
      keys-NoNull (rw typed-keys (omega arith)) refl refl (omega arith) refl (omega arith)

abbrev after_install : Session World
after_install = record session { commands = make 2 ∷ [] }

install_run :
    client_turn (kernel_calls 5 sha api 1000 kernel_env) install_2 picked modules session
    ≡ done modules after_install
unfolding client_turn modules_turn display_module_info strtok strtol_int str_eq modules_next
    mod_info
install_run = refl

one_turn : Turns (Answers sha api 1000) modules session modules after_install
one_turn =
    turn (kernel_calls 5 sha api 1000 kernel_env) install_2 picked (answers 5 kernel_env)
      install_run stay

Turns-no_root_example : after_install.kernel ≡ session.kernel
Turns-no_root_example =
    Turns-no_root sha api 1000 modules modules session after_install (λ e. absurd (omega arith))
      session-IsSized refl one_turn

Turns-exit_example :
    Turns (λ k. k ≡ kernel_calls 5 sha api 0 kernel_env) modules session (stopped 0) session
    × Turns (λ k. k ≡ kernel_calls 5 sha api 0 kernel_env) home session (stopped 0) session
unfolding sys_get_rf_state kernel_calls
Turns-exit_example =
    Turns-exit (kernel_calls 5 sha api 0 kernel_env) install_2 picked session 2 world (omega arith)
      refl

-- ===== src/Client/Modules/Exit.antt =====
-- The way out of the first screen.
use reference_monitor.Base.{codes, none, refl, some, ◌≡◌}
use reference_monitor.CString.{str_eq}
use reference_monitor.Client.Modules.{
  ModulesInput, display_module_info, interpret, mod_info, modules_next, modules_turn, read_line,
  stopped,
}
use reference_monitor.Client.Text.{strtok}
use reference_monitor.Run.{done}

-- The input of a user who types `exit`
abbrev pub types_exit : ModulesInput → ModulesInput
types_exit mi = record mi { line = some (codes "exit") }

pub modules_turn-exit :
    {S : Type 0} (mi : ModulesInput) (s : S)
    → modules_turn (types_exit mi) s ≡ done (none, stopped 0) s
unfolding modules_turn display_module_info read_line interpret strtok str_eq modules_next mod_info
modules_turn-exit mi s = refl

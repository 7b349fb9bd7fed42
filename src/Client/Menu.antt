-- ===== src/Client/Menu.antt =====
-- The program of client/client.c as a whole: `main` goes from screen to screen, one turn at a time.
-- The user and the kernel can give other answers on each turn.
pub mod Exit
pub mod Keeps
use reference_monitor.Base.{Option, none, some, ◌∷◌, ◌≡◌}
use reference_monitor.Client.Home.{HomeInput, Session, SysCalls, home_turn}
use reference_monitor.Client.Modules.{
  Command, ModulesInput, Screen, home, modules, modules_turn, stopped,
}
use reference_monitor.Run.{Cmd, done, pure, ◌>>=◌, ◌>>◌}

module _ {S : Type 0} where
  add_command : Option Command → Cmd (Session S) (Unit {0})
  add_command none s = done tt s
  add_command (some c) s = done tt (record s { commands = c ∷ s.commands })

  -- A turn on the screen that is shown. A program that has ended stays so.
  unfoldable pub client_turn :
      SysCalls S → ModulesInput → HomeInput → Screen → Cmd (Session S) Screen
  unfolding add_command
  client_turn k mi hi modules = do r ← modules_turn mi; add_command r.0; pure r.1
  client_turn k mi hi home = home_turn k hi
  client_turn k mi hi (stopped n) = pure (stopped n)

-- A sequence of turns, each with system calls for which `P` holds.
pub data Turns {S : Type 0} (P : SysCalls S → Type 0)
    : Screen → Session S → Screen → Session S → Type 0 where
  stay : {x : Screen} {s : Session S} → Turns P x s x s
  turn :
      {x x' x'' : Screen} {s s' s'' : Session S} (k : SysCalls S) (mi : ModulesInput)
      (hi : HomeInput)
      → P k
      → client_turn k mi hi x s ≡ done x' s'
      → Turns P x' s' x'' s''
      → Turns P x s x'' s''

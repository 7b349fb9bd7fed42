-- ===== src/Client/Menu/Keeps.antt =====
-- What the client keeps over any number of turns.
use reference_monitor.Base.{Option, subst}
use reference_monitor.Client.Home.{HomeInput, Session, SysCalls}
use reference_monitor.Client.Home.Keeps.{Safe, Steady, home_turn-Steady}
use reference_monitor.Client.Menu.{Turns, add_command, client_turn, stay, turn}
use reference_monitor.Client.Modules.{
  Command, Loaded, ModulesInput, Screen, home, modules, modules_turn, stopped,
}
use reference_monitor.Client.Modules.Screens.{
  Outcome, Turned, again, installed, left, modules_turn-Turned, removed, went_home,
}
use reference_monitor.Run.{IfDone, Run, and_then, done, fault, pure, ◌>>◌}

module _ {S : Type 0} (K : S → Type 0) where
  abbrev After : {A : Type 0} → Run (Session S) A → Type 0
  After r = IfDone (λ _ s. Steady K s) r

  noted-Steady :
      (l : Loaded) (o : Option Command × Screen) (s : Session S)
      → Steady K s
      → Outcome l o
      → After ((add_command o.0 >> pure o.1) s)
  unfolding add_command
  noted-Steady l _ s h again = h
  noted-Steady l _ s h (installed n one three) = record {
    kernel = h.kernel;
    sized = h.sized;
    commands = ((one, three), h.commands);
  }
  noted-Steady l _ s h (removed n one three) = record {
    kernel = h.kernel;
    sized = h.sized;
    commands = ((one, three), h.commands);
  }
  noted-Steady l _ s h (went_home all) = h
  noted-Steady l _ s h left = h

  Turned-Steady :
      (mi : ModulesInput) (s : Session S) (r : Run (Session S) (Option Command × Screen))
      → Steady K s
      → Turned mi s r
      → After (and_then r (λ o. add_command o.0 >> pure o.1))
  Turned-Steady mi s (done o s') h (out, same) = rw same (noted-Steady mi.loaded o s h out)
  Turned-Steady mi s (fault f) h bad = tt

  turn-Steady :
      (k : SysCalls S) (mi : ModulesInput) (hi : HomeInput) (x : Screen) (s : Session S)
      → Safe K k
      → Steady K s
      → IfDone (λ _ s'. Steady K s') (client_turn k mi hi x s)
  unfolding client_turn
  turn-Steady k mi hi modules s safe h =
      Turned-Steady mi s (modules_turn mi s) h (modules_turn-Turned mi s)
  turn-Steady k mi hi home s safe h = home_turn-Steady K k safe hi s h
  turn-Steady k mi hi (stopped n) s safe h = h

  -- The kernel's state is in `K`, the buffer for the password has 32 bytes, and every command line
  -- so far is for one of the modules 1 to 3. Let none of the system calls lead out of `K`, as long
  -- as they come back, on no turn. Then the same holds however many turns the user takes, whatever
  -- is typed and whatever the terminal grants.
  pub Turns-Steady :
      (x x' : Screen) (s s' : Session S) → Turns (Safe K) x s x' s' → Steady K s → Steady K s'
  Turns-Steady x _ s _ stay h = h
  Turns-Steady x x' s s' (turn k mi hi safe run rest) h =
      Turns-Steady _ x' _ s' rest
        (subst (IfDone (λ _ s'. Steady K s')) run (turn-Steady k mi hi x s safe h))

-- ===== src/Client/Menu/Exit.antt =====
-- The ways out of the program.
use reference_monitor.Base.{refl, ℕ, ◌≡◌, ◌≤◌}
use reference_monitor.Base.Int.{pos}
use reference_monitor.Client.Home.{HomeInput, Session, SysCalls}
use reference_monitor.Client.Home.Exit.{home_turn-exit, picks_exit}
use reference_monitor.Client.Menu.{Turns, add_command, client_turn, stay, turn}
use reference_monitor.Client.Modules.{ModulesInput, home, modules, stopped}
use reference_monitor.Client.Modules.Exit.{modules_turn-exit, types_exit}
use reference_monitor.Run.{done}

module _ {S : Type 0} (k : SysCalls S) (mi : ModulesInput) (hi : HomeInput) where
  out : (s : Session S) → Turns (λ k'. k' ≡ k) modules s (stopped 0) s
  unfolding client_turn add_command
  out s = turn k (types_exit mi) hi refl (rw (modules_turn-exit mi s) refl) stay

  -- The user can leave from both screens. When the kernel's call for the state comes back with one of
  -- the four states, the entry that the second screen shows as "Exit" leads to the first screen, and
  -- there `exit` ends the program with status 0; no command line is run on the way, and the kernel's
  -- state is as the call left it.
  pub Turns-exit :
      (s : Session S) (n : ℕ) (w : S)
      → n ≤ 3
      → k.get_call s.kernel ≡ done (pos n) w
      → Turns (λ k'. k' ≡ k) modules s (stopped 0) s
        × Turns (λ k'. k' ≡ k) home s (stopped 0) (record s { kernel = w })
  unfolding client_turn
  Turns-exit s n w le run = (
    out s,
    turn k mi (picks_exit (pos n) hi) refl (home_turn-exit k hi s n w le run)
        (out (record s { kernel = w })),
  )

-- ===== src/Client/Home/Exit.antt =====
-- The way out of the second screen.
use reference_monitor.Base.{arith, if◌then◌else◌, refl, suc, zero, ℕ, ◌||◌, ◌≡◌, ◌≤◌}
use reference_monitor.Base.Int.{eq_pos, pos, ℤ}
use reference_monitor.Client.{get_rf_state, reply_of}
use reference_monitor.Client.Home.{
  HomeInput, Session, SysCalls, choose, get_function_number, home_case, home_turn, on_kernel,
  with_kernel,
}
use reference_monitor.Client.Modules.{exit_value, modules}
use reference_monitor.Run.{done}

-- The number in front of "Exit"
unfoldable pub exit_number : (rf_state : ℤ) → ℤ
exit_number rf_state = if eq_pos rf_state 2 || eq_pos rf_state 3 then pos 6 else pos 3

-- The input of a user who types it
abbrev pub picks_exit : (rf_state : ℤ) → HomeInput → HomeInput
picks_exit rf_state hi = record hi { number = exit_number rf_state }

choose-exit_number : (n : ℕ) → n ≤ 3 → choose (pos n) (exit_number (pos n)) ≡ exit_value
unfolding choose exit_number
choose-exit_number zero le = refl
choose-exit_number (suc zero) le = refl
choose-exit_number (suc (suc zero)) le = refl
choose-exit_number (suc (suc (suc zero))) le = refl
choose-exit_number (suc (suc (suc (suc n)))) le = absurd (omega arith)

pub home_turn-exit :
    {S : Type 0} (k : SysCalls S) (hi : HomeInput) (s : Session S) (n : ℕ) (w : S)
    → n ≤ 3
    → k.get_call s.kernel ≡ done (pos n) w
    → home_turn k (picks_exit (pos n) hi) s ≡ done modules (record s { kernel = w })
unfolding home_turn home_case on_kernel with_kernel get_function_number get_rf_state reply_of
home_turn-exit k hi s n w le run = rw (run, choose-exit_number n le) refl

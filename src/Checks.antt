-- ===== src/Checks.antt =====
-- The checks of reference-monitor/utils/utils.c that need no memory: the state, the caller's
-- effective user, and whether the monitor is in one of its two reconfiguration states.
use reference_monitor.Base.{
  Bool-cases, arith, if◌then◌else◌, inl, inr, refl, suc, true, zero, ℕ, ◌==◌, ◌||◌, ◌↔◌, ◌≡◌, ◌≤◌,
  ◌⊎◌,
}
use reference_monitor.Base.Int.{einval, eperm, gt_pos, is_error, lt_pos, negsuc, pos, ℤ}
use reference_monitor.Monitor.{Monitor}

-- RF_ON, RF_OFF, RF_REC_ON and RF_REC_OFF
abbrev pub rf_on : ℤ
rf_on = pos 0

abbrev pub rf_off : ℤ
rf_off = pos 1

abbrev pub rf_rec_on : ℤ
rf_rec_on = pos 2

abbrev pub rf_rec_off : ℤ
rf_rec_off = pos 3

unfoldable pub is_rf_rec : Monitor → ℤ
is_rf_rec m = if lt_pos m.state 2 then eperm else pos 0

unfoldable pub euid_check : ℕ → ℤ
euid_check euid = if euid == 0 then pos 0 else eperm

unfoldable pub rf_state_check : ℤ → ℤ
rf_state_check state = if lt_pos state 0 || gt_pos state 3 then einval else pos 0

admitted :
    (n : ℕ)
    → n ≤ 3
    → (pos n ≡ rf_on) ⊎ (pos n ≡ rf_off) ⊎ (pos n ≡ rf_rec_on) ⊎ (pos n ≡ rf_rec_off)
admitted zero h = inl refl
admitted (suc zero) h = inr (inl refl)
admitted (suc (suc zero)) h = inr (inr (inl refl))
admitted (suc (suc (suc zero))) h = inr (inr (inr refl))
admitted (suc (suc (suc (suc n)))) h = absurd (omega arith)

-- The four states are admitted, and no other `int`.
pub rf_state_check_iff :
    (state : ℤ)
    → (rf_state_check state ≡ pos 0)
      ↔ ((state ≡ rf_on) ⊎ (state ≡ rf_off) ⊎ (state ≡ rf_rec_on) ⊎ (state ≡ rf_rec_off))
unfolding rf_state_check
rf_state_check_iff (pos n) = (λ h. admitted n (ground arith), λ h. ground arith)
rf_state_check_iff (negsuc n) = (λ h. ground arith, λ h. ground arith)

-- Both checks pass with 0 or fail with an error code.
pub rf_state_check-codes :
    (s : ℤ) → (rf_state_check s ≡ pos 0) ⊎ (is_error (rf_state_check s) ≡ true)
unfolding rf_state_check
rf_state_check-codes s = elim (Bool-cases (lt_pos s 0 || gt_pos s 3)) [
  | inl e ↦ rw e (inr refl)
  | inr e ↦ rw e (inl refl)
]

pub is_rf_rec-codes : (m : Monitor) → (is_rf_rec m ≡ pos 0) ⊎ (is_error (is_rf_rec m) ≡ true)
unfolding is_rf_rec
is_rf_rec-codes m = elim (Bool-cases (lt_pos m.state 2)) [
  | inl e ↦ rw e (inr refl)
  | inr e ↦ rw e (inl refl)
]

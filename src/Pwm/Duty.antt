-- ===== src/Pwm/Duty.antt =====
-- `compute_ccr`: the compare value for a duty cycle in hundredths of a percent.
use hilglebone.Base.{
  ℕ, zero, suc, ◌+◌, ◌*◌, ◌/◌, ◌%◌, ◌^◌, ◌≤◌, ◌<◌, ◌≡◌, refl, arith, leb, ◌==◌, u32, false,
}
use hilglebone.Pwm.{compute_ccr, duty_max}

-- The compare value `ccr` is the duty share of the period, rounded down.
abbrev pub IsShare : ℕ → ℕ → ℕ → Type 0
IsShare arr duty ccr =
    (ccr * duty_max ≤ (arr + 1) * duty) × ((arr + 1) * duty < (ccr + 1) * duty_max)

no_duty : (arr : ℕ) → (arr + 1) * 0 ≡ 0
no_duty arr = omega arith

computed :
    (arr n : ℕ)
    → arr + 1 < 2 ^ 32
    → suc n < duty_max
    → compute_ccr arr (suc n) ≡ (arr + 1) * suc n % 2 ^ 32 / duty_max
unfolding compute_ccr
computed arr n w d =
    let on : (suc n == 0) ≡ false = ground arith in
    let below : leb duty_max (suc n) ≡ false = ground arith in
    let word : u32 (arr + 1) ≡ arr + 1 = omega arith in rw (on, below, word) refl

-- For a reload value below 2^32 - 1 and a duty below 100 % whose product with the period fits
-- 32 bits, the compare value is the duty share of the period, rounded down.
pub compute_ccr-IsShare :
    (arr duty : ℕ)
    → arr + 1 < 2 ^ 32
    → duty < duty_max
    → (arr + 1) * duty < 2 ^ 32
    → IsShare arr duty (compute_ccr arr duty)
unfolding compute_ccr
compute_ccr-IsShare arr zero w d fits = rw (no_duty arr) (omega arith)
compute_ccr-IsShare arr (suc n) w d fits = rw (computed arr n w d) (omega arith)

-- For a reload value below 2^32 - 1 and a duty below 100 % whose product with the period does
-- not fit 32 bits, the compare value is at least 429496 ticks short of the duty share of the
-- period.
pub compute_ccr-overflow :
    (arr duty : ℕ)
    → arr + 1 < 2 ^ 32
    → duty < duty_max
    → 2 ^ 32 ≤ (arr + 1) * duty
    → (compute_ccr arr duty + 429_496) * duty_max ≤ (arr + 1) * duty
unfolding compute_ccr
compute_ccr-overflow arr zero w d over = absurd (omega arith)
compute_ccr-overflow arr (suc n) w d over = rw (computed arr n w d) (omega arith)

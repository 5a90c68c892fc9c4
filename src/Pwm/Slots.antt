-- ===== src/Pwm/Slots.antt =====
-- `slot_for` gives every channel of every timer its own slot of the pool.
use hilglebone.Base.{ℕ, ◌≤◌, ◌<◌, ◌≡◌, arith}
use hilglebone.HwTimer.{timer_count}
use hilglebone.Pwm.{slot_for, slot_pool_size, max_channels}

-- A timer and a channel in range.
abbrev pub IsOutput : ℕ → ℕ → Type 0
IsOutput timer_id channel = (timer_id < timer_count) × (1 ≤ channel) × (channel ≤ max_channels)

pub slot_for-lt : (t c : ℕ) → IsOutput t c → slot_for t c < slot_pool_size
unfolding slot_for
slot_for-lt t c v = omega (arith, v)

-- Two outputs in range that share a slot are the same channel of the same timer.
pub slot_for-injective :
    (t c t' c' : ℕ)
    → IsOutput t c
    → IsOutput t' c'
    → slot_for t c ≡ slot_for t' c'
    → (t ≡ t') × (c ≡ c')
unfolding slot_for
slot_for-injective t c t' c' v v' e = (omega (arith, v, v'), omega (arith, v, v'))

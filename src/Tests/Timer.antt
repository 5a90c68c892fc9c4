-- ===== src/Tests/Timer.antt =====
-- Runs and instances for stm32/project/drivers/timer/src/hw_timer.c.
use hilglebone.Base.{ℕ, ◌<◌, ◌≡◌, refl, arith, List, some, none}
use hilglebone.HwTimer.{Timer, TimerState, Width, init, timer_at, timer_count, compute_psc_arr}
use hilglebone.HwTimer.Freq.{Setting, compute_psc_arr-IsSetting}
use hilglebone.HwTimer.Pulse.{find_pulse_entry, pulse_acquire, handle_pulse_isr}
use hilglebone.HwTimer.Pwm.{pwm_join, pwm_open, pwm_acquire_at, pwm_acquire}
use hilglebone.HwTimer.Pool.{IsPool}
use hilglebone.HwTimer.Steps.{Call, step, Reached, consistent_at, Reached-IsPool}
use hilglebone.HwTimer.Interrupt.{Dispatched}
use hilglebone.HwTimer.Share.{Keeps, step-Keeps}
use hilglebone.HwTimer.Token.{Bound, pulse_acquire-Bound}

servo_setting : compute_psc_arr 50 Width.width_16 ≡ some (25, 64614)
unfolding compute_psc_arr
servo_setting = refl

compute_psc_arr-IsSetting_example : Setting 50 Width.width_16
compute_psc_arr-IsSetting_example =
    compute_psc_arr-IsSetting 50 Width.width_16 (omega arith) (omega arith)

-- TIM3 held by two PWM channels of 1 kHz, TIM4 by the token 9.
abbrev once : List Timer
once = step (Call.acquire_pwm 1 1000) init

abbrev twice : List Timer
twice = step (Call.acquire_pwm 1 1000) once

abbrev busy : List Timer
busy = step (Call.acquire_pulse 2 9) twice

once_fits : (timer_at init 1).pwm_ref_count ≡ 0
unfolding init
once_fits = refl

twice_fits : (timer_at once 1).pwm_ref_count ≡ 1
unfolding step pwm_acquire pwm_acquire_at pwm_join pwm_open compute_psc_arr init
twice_fits = refl

once-Reached : Reached once
once-Reached =
    Reached.after init (Call.acquire_pwm 1 1000) Reached.at_start (omega (arith, once_fits))

twice-Reached : Reached twice
twice-Reached =
    Reached.after once (Call.acquire_pwm 1 1000) once-Reached (omega (arith, twice_fits))

busy-Reached : Reached busy
busy-Reached = Reached.after twice (Call.acquire_pulse 2 9) twice-Reached tt

-- The pulse on TIM4 is over.
abbrev fired : List Timer
fired = step (Call.update 2) busy

fired-Reached : Reached fired
fired-Reached = Reached.after busy (Call.update 2) busy-Reached (omega arith)

Reached-IsPool_example :
    IsPool fired × ((id : ℕ) → id < timer_count → Dispatched fired id (handle_pulse_isr fired id))
Reached-IsPool_example = Reached-IsPool fired fired-Reached

twice-IsPool : IsPool twice
twice-IsPool = consistent_at twice twice-Reached

twice_held : (timer_at twice 1).state ≡ TimerState.pwm
unfolding step pwm_acquire pwm_acquire_at pwm_join pwm_open compute_psc_arr init
twice_held = refl

step-Keeps_example : Keeps (timer_at twice 1) (timer_at busy 1)
step-Keeps_example =
    step-Keeps twice twice-IsPool 1 (omega arith) twice_held (Call.acquire_pulse 2 9) tt

at_start_free : (timer_at init 4).state ≡ TimerState.free
unfolding init
at_start_free = refl

at_start_unbound : find_pulse_entry init 9 ≡ none
unfolding find_pulse_entry init
at_start_unbound = refl

pulse_acquire-Bound_example : Bound init 9 4 (pulse_acquire init 4 9)
pulse_acquire-Bound_example =
    pulse_acquire-Bound init 4 9 (consistent_at init Reached.at_start) (omega arith) at_start_free
      at_start_unbound

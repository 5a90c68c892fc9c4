-- ===== src/HwTimer/Pulse.antt =====
-- stm32/project/drivers/timer/src/hw_timer.c: the one-shot pulses. The callback is the caller's; the
-- interrupt handler returns the token that it passes to it.
use mathlib.Core.Option
use hilglebone.Base.{ℕ, suc, ◌-◌, ◌/◌, List, [], ◌∷◌, true, false, not, ◌&&◌, ◌||◌, Option, none}
use hilglebone.Base.{some, ltb, leb, ◌==◌, if◌then◌else◌, set}
use hilglebone.Base.ErrCode.{ErrCode}
use hilglebone.HwTimer.{
  Timer, TimerState, Width, clock_hz, timer_count, timer_at, arr_max_16, arr_max_32, clock_enable,
  clock_disable, is_free, is_pulse,
}

-- `PULSE_PSC`
abbrev pub pulse_psc : ℕ
pulse_psc = clock_hz / 1_000_000 - 1

-- `find_pulse_entry`: the index of the first timer that this token holds.
unfoldable pub find_pulse_entry : List Timer → ℕ → Option ℕ
find_pulse_entry [] user_token = none
find_pulse_entry (e ∷ rest) user_token =
    let later = Option.map suc (find_pulse_entry rest user_token) in
    if is_pulse e.state && (e.pulse_token == user_token) then some 0 else later

-- `pulse_configure_idle`
unfoldable pub pulse_configure_idle : Timer → Timer
pulse_configure_idle e = record e {
  tim = record e.tim {
    cen = false;
    opm = true;
    urs = true;
    arpe = false;
    uie = false;
    uif = false;
    cnt = 0;
    psc = pulse_psc;
    arr = 0;
  };
}

-- What `hw_timer_pulse_acquire` does to a free timer.
unfoldable pub pulse_reserve : Timer → ℕ → Timer
unfolding pulse_configure_idle
pulse_reserve e user_token = record (pulse_configure_idle (clock_enable e)) {
  pulse_token = user_token;
  pulse_cb = true;
  state = TimerState.pulse;
  irq_on = true;
}

-- `hw_timer_pulse_acquire`
unfoldable pub pulse_acquire : List Timer → ℕ → ℕ → ErrCode × List Timer
unfolding pulse_reserve
pulse_acquire timers id user_token =
    let e = timer_at timers id in
    if leb timer_count id
    then (ErrCode.invalid_parameter, timers)
    else (if not (is_free e.state)
        then (ErrCode.peripheral_busy, timers)
        else (ErrCode.success, set timers id (pulse_reserve e user_token)))

-- What `hw_timer_pulse_release` does to the timer that it finds.
unfoldable pub pulse_free : Timer → Timer
pulse_free e = record (clock_disable e) {
  irq_on = false;
  tim = record e.tim {
    cen = false;
    opm = false;
    urs = false;
    arpe = false;
    uie = false;
    uif = false;
  };
  pulse_token = 0;
  pulse_cb = false;
  state = TimerState.free;
}

-- `hw_timer_pulse_release`
unfoldable pub pulse_release : List Timer → ℕ → List Timer
unfolding find_pulse_entry pulse_free
pulse_release timers user_token = elim (find_pulse_entry timers user_token) [
  | none ↦ timers
  | some i ↦ set timers i (pulse_free (timer_at timers i))
]

-- `HW_TIMER_MAX_PULSE_US_16`, `HW_TIMER_MAX_PULSE_US_32`
abbrev pub max_pulse_us : Width → ℕ
max_pulse_us Width.width_16 = arr_max_16
max_pulse_us Width.width_32 = arr_max_32

-- `hw_timer_pulse_max_us`
unfoldable pub pulse_max_us : List Timer → ℕ → ℕ
unfolding find_pulse_entry
pulse_max_us timers user_token = elim (find_pulse_entry timers user_token) [
  | none ↦ 0
  | some i ↦ max_pulse_us (timer_at timers i).width
]

-- The writes of `hw_timer_pulse_start`.
unfoldable pub pulse_arm : Timer → ℕ → Timer
pulse_arm e pulse_us = record e {
  tim = record e.tim { cen = true; cnt = 0; arr = pulse_us - 1; uif = false; uie = true };
}

-- `hw_timer_pulse_start`
unfoldable pub pulse_start : List Timer → ℕ → ℕ → ErrCode × List Timer
unfolding find_pulse_entry pulse_max_us pulse_arm
pulse_start timers user_token pulse_us = elim (find_pulse_entry timers user_token) [
  | none ↦ (ErrCode.invalid_parameter, timers)
  | some i ↦
      if pulse_us == 0 || ltb (pulse_max_us timers user_token) pulse_us
      then (ErrCode.invalid_parameter, timers)
      else (ErrCode.success, set timers i (pulse_arm (timer_at timers i) pulse_us))
]

-- `handle_pulse_isr`: the timers, and the token that the callback is called with, if it is.
unfoldable pub handle_pulse_isr : List Timer → ℕ → List Timer × Option ℕ
handle_pulse_isr timers id =
    let e = timer_at timers id in
    if not e.tim.uif then (timers, none) else (
      set timers id (record e { tim = record e.tim { uif = false } }),
      if is_pulse e.state && e.pulse_cb then some e.pulse_token else none,
    )

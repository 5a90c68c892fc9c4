-- ===== src/HwTimer/Pwm.antt =====
-- stm32/project/drivers/timer/src/hw_timer.c: the timers that PWM channels of one frequency share.
-- `*out_arr` is `none` where the code leaves it unwritten.
use hilglebone.Base.{ℕ, ◌+◌, ◌-◌, List, true, false, not, ◌||◌, Option, none, some, u8}
use hilglebone.Base.{ltb, leb, ◌==◌, if◌then◌else◌, set}
use hilglebone.Base.ErrCode.{ErrCode}
use hilglebone.HwTimer.{
  Timer, TimerState, timer_count, timer_at, clock_enable, clock_disable, is_pulse, is_pwm,
  compute_psc_arr,
}

-- The part of `hw_timer_pwm_acquire` under STATE_PWM: nothing if the frequencies differ.
unfoldable pub pwm_join : Timer → ℕ × ℕ → Option Timer
pwm_join e (psc, arr) =
    if not (e.psc == psc) || not (e.arr == arr)
    then none
    else some (record e { pwm_ref_count = u8 (e.pwm_ref_count + 1) })

-- The part of `hw_timer_pwm_acquire` under STATE_FREE.
unfoldable pub pwm_open : Timer → ℕ × ℕ → Timer
pwm_open e (psc, arr) = record (clock_enable e) {
  tim = record e.tim {
    cen = true;
    opm = false;
    urs = false;
    arpe = true;
    uif = false;
    cnt = 0;
    psc = psc;
    arr = arr;
  };
  psc = psc;
  arr = arr;
  pwm_ref_count = 1;
  state = TimerState.pwm;
}

-- `hw_timer_pwm_acquire` behind the guard on the id.
unfoldable pub pwm_acquire_at : List Timer → ℕ → ℕ → ErrCode × Option ℕ × List Timer
unfolding pwm_join pwm_open
pwm_acquire_at timers id freq_hz =
    let e = timer_at timers id in
    if is_pulse e.state
    then (ErrCode.peripheral_busy, none, timers)
    else elim (compute_psc_arr freq_hz e.width) [
      | none ↦ (ErrCode.invalid_parameter, none, timers)
      | some setting ↦
          if is_pwm e.state
          then elim (pwm_join e setting) [
            | none ↦ (ErrCode.pwm_freq_conflict, none, timers)
            | some e' ↦ (ErrCode.success, some e.arr, set timers id e')
          ]
          else (ErrCode.success, some (setting.1), set timers id (pwm_open e setting))
    ]

-- `hw_timer_pwm_acquire`
unfoldable pub pwm_acquire : List Timer → ℕ → ℕ → ErrCode × Option ℕ × List Timer
unfolding pwm_acquire_at
pwm_acquire timers id freq_hz =
    if leb timer_count id
    then (ErrCode.invalid_parameter, none, timers)
    else pwm_acquire_at timers id freq_hz

-- The references that `hw_timer_pwm_release` leaves.
unfoldable pub count_left : Timer → ℕ
count_left e = if ltb 0 e.pwm_ref_count then e.pwm_ref_count - 1 else e.pwm_ref_count

-- What `hw_timer_pwm_release` does with that count.
unfoldable pub pwm_leave : Timer → ℕ → Timer
pwm_leave e left =
    let e' = record e { pwm_ref_count = left } in
    if left == 0
    then record (clock_disable e') {
      tim = record e.tim { cen = false; opm = false; urs = false; arpe = false };
      psc = 0;
      arr = 0;
      state = TimerState.free;
    }
    else e'

-- What `hw_timer_pwm_release` does to a timer under STATE_PWM.
unfoldable pub pwm_drop : Timer → Timer
unfolding count_left pwm_leave
pwm_drop e = pwm_leave e (count_left e)

-- `hw_timer_pwm_release`
unfoldable pub pwm_release : List Timer → ℕ → List Timer
unfolding pwm_drop
pwm_release timers id =
    let e = timer_at timers id in
    if leb timer_count id || not (is_pwm e.state) then timers else set timers id (pwm_drop e)

-- `hw_timer_pwm_arr`
unfoldable pub pwm_arr : List Timer → ℕ → ℕ
pwm_arr timers id = if leb timer_count id then 0 else (timer_at timers id).arr

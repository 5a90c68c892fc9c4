-- ===== src/HwTimer.antt =====
-- stm32/project/drivers/timer/src/hw_timer.c: the pool of seven timers, each free, reserved for
-- one-shot pulses, or shared by PWM channels of one frequency. Register bits are Booleans; the
-- writes to EGR only trigger the hardware and have no place in the state.
pub mod Freq
pub mod Pulse
pub mod Pwm
pub mod Pool
pub mod Interrupt
pub mod Steps
pub mod Share
pub mod Token
use mathlib.Core.Option
use hilglebone.Base.{ℕ, suc, ◌+◌, ◌-◌, ◌/◌, ◌%◌, ◌^◌, List, [], ◌∷◌, Bool, true, false, not, ◌&&◌}
use hilglebone.Base.{◌||◌, Option, none, some, u8, u32, ltb, leb, ◌==◌, if◌then◌else◌, get_or, set}
use hilglebone.Base.ErrCode.{ErrCode}

-- `HW_TIMER_COUNT`, `HW_TIMER_CLOCK_HZ`, `HW_TIMER_PSC_MAX`, `HW_TIMER_ARR_MAX_16`, `_32`,
-- `HW_TIMER_FREQ_MAX_HZ`
abbrev pub timer_count : ℕ
timer_count = 7

abbrev pub clock_hz : ℕ
clock_hz = 84_000_000

abbrev pub psc_max : ℕ
psc_max = 0xFFFF

abbrev pub arr_max_16 : ℕ
arr_max_16 = 0xFFFF

abbrev pub arr_max_32 : ℕ
arr_max_32 = 0xFFFF_FFFF

abbrev pub freq_max_hz : ℕ
freq_max_hz = clock_hz / 2

-- `hw_timer_width_t`
pub data Width : Type 0 where
  width_16 width_32 : Width

-- `hw_timer_state_t`
pub data TimerState : Type 0 where
  free pulse pwm : TimerState

-- One output channel: the fields OCxM (PWM mode 1) and OCxPE of CCMR, CCxE of CCER, and CCR.
pub record Channel : Type 0 where
  pub pwm_mode : Bool
  pub preload : Bool
  pub enabled : Bool
  pub ccr : ℕ

abbrev pub channel_off : Channel
channel_off = record { pwm_mode = false; preload = false; enabled = false; ccr = 0 }

-- The registers of a timer that the firmware uses: CEN, OPM, URS and ARPE of CR1, UIE of DIER, UIF
-- of SR, CNT, PSC, ARR and the channels.
pub record Tim : Type 0 where
  pub cen : Bool
  pub opm : Bool
  pub urs : Bool
  pub arpe : Bool
  pub uie : Bool
  pub uif : Bool
  pub cnt : ℕ
  pub psc : ℕ
  pub arr : ℕ
  pub channels : List Channel

-- `hw_timer_entry_t`, with the timer's clock gate and interrupt enable. `pulse_cb` says that a
-- callback is set.
pub record Timer : Type 0 where
  pub tim : Tim
  pub clock_on : Bool
  pub irq_on : Bool
  pub width : Width
  pub max_ch : ℕ
  pub state : TimerState
  pub pulse_token : ℕ
  pub pulse_cb : Bool
  pub psc : ℕ
  pub arr : ℕ
  pub pwm_ref_count : ℕ

abbrev tim_reset : Tim
tim_reset = record {
  cen = false;
  opm = false;
  urs = false;
  arpe = false;
  uie = false;
  uif = false;
  cnt = 0;
  psc = 0;
  arr = 0;
  channels = channel_off ∷ channel_off ∷ channel_off ∷ channel_off ∷ [];
}

abbrev timer_of : Width → ℕ → Timer
timer_of width max_ch = record {
  tim = tim_reset;
  clock_on = false;
  irq_on = false;
  width = width;
  max_ch = max_ch;
  state = TimerState.free;
  pulse_token = 0;
  pulse_cb = false;
  psc = 0;
  arr = 0;
  pwm_ref_count = 0;
}

-- `hw_timer_init`, with the registers as after a reset: TIM2, 3, 4, 5, 9, 10, 11.
unfoldable pub init : List Timer
init =
    timer_of Width.width_32 4
    ∷ timer_of Width.width_16 4
    ∷ timer_of Width.width_16 4
    ∷ timer_of Width.width_32 4
    ∷ timer_of Width.width_16 2
    ∷ timer_of Width.width_16 1
    ∷ timer_of Width.width_16 1
    ∷ []

-- `&timers[id]`, for `id` below the count.
abbrev pub timer_at : List Timer → ℕ → Timer
timer_at timers id = get_or timers id (timer_of Width.width_16 0)

abbrev pub max_arr : Width → ℕ
max_arr Width.width_16 = arr_max_16
max_arr Width.width_32 = arr_max_32

-- `compute_psc_arr` behind its guards, over `uint64_t`; `none` is ERR_INVALID_PARAMETER.
psc_arr_of : ℕ → ℕ → Option (ℕ × ℕ)
psc_arr_of period limit =
    let rounded = (period + limit) / (limit + 1) in
    let psc_p1 = if rounded == 0 then 1 else rounded in
    let arr = (period / psc_p1 + 2 ^ 64 - 1) % 2 ^ 64 in
    if ltb (psc_max + 1) psc_p1
    then none
    else (if ltb limit arr then none else some (u32 (psc_p1 - 1), u32 arr))

-- `compute_psc_arr`
unfoldable pub compute_psc_arr : ℕ → Width → Option (ℕ × ℕ)
unfolding psc_arr_of
compute_psc_arr freq_hz width =
    if freq_hz == 0 || ltb freq_max_hz freq_hz
    then none
    else psc_arr_of (clock_hz / freq_hz) (max_arr width)

-- `clock_enable` and `clock_disable`: each timer has its own bit of RCC.
abbrev pub clock_enable : Timer → Timer
clock_enable e = record e { clock_on = true }

abbrev pub clock_disable : Timer → Timer
clock_disable e = record e { clock_on = false }

abbrev pub is_free : TimerState → Bool
is_free TimerState.free = true
is_free _ = false

abbrev pub is_pulse : TimerState → Bool
is_pulse TimerState.pulse = true
is_pulse _ = false

abbrev pub is_pwm : TimerState → Bool
is_pwm TimerState.pwm = true
is_pwm _ = false

-- `hw_timer_max_channel`
unfoldable pub max_channel : List Timer → ℕ → ℕ
max_channel timers id = if leb timer_count id then 0 else (timer_at timers id).max_ch

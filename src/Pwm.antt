-- ===== src/Pwm.antt =====
-- stm32/project/simulate/pwm/src/pwm_sensor.c: a PWM sensor is a pin and a channel of a timer. The
-- mask of owned pins of a port is a list of 16 Booleans.
pub mod Calls
pub mod Enroll
pub mod Duty
pub mod Slots
pub mod Atomic
pub mod Return
use mathlib.Core.Option
use hilglebone.Base.{
  ℕ, suc, ◌+◌, ◌-◌, ◌*◌, ◌/◌, ◌%◌, ◌^◌, List, [], ◌∷◌, Bool, true, false, not, ◌||◌,
}
use hilglebone.Base.{
  u8, u32, ltb, leb, ◌==◌, if◌then◌else◌, get_or, set, replicate, Option, some, none,
}
use hilglebone.Base.{read_u16_le, read_u32_le}
use hilglebone.Base.ErrCode.{ErrCode, is_success}
use hilglebone.Gpio
use hilglebone.Gpio.{Gpio, PinId, enable_clock, configure_af, reset_to_defaults}
use hilglebone.HwTimer.{Timer, Tim, Channel, channel_off, timer_at, max_channel, timer_count}
use hilglebone.HwTimer.Pwm.{pwm_acquire, pwm_release, pwm_arr}
use hilglebone.Manager
use hilglebone.Manager.{Manager, id_none}

-- `HW_TIMER_MAX_CHANNELS`, `PWM_SLOT_POOL_SIZE`, `PROTO_ID_PWM`
abbrev pub max_channels : ℕ
max_channels = 4

abbrev pub slot_pool_size : ℕ
slot_pool_size = timer_count * max_channels

-- `PWM_DUTY_MAX`, `PWM_FREQ_MIN_HZ`, `PWM_FREQ_MAX_HZ`
abbrev pub duty_max : ℕ
duty_max = 10_000

abbrev freq_min : ℕ
freq_min = 1

abbrev freq_max : ℕ
freq_max = 1_000_000

-- `PWM_CFG_SIZE`, `PWM_SET_OUTPUT_SIZE`
abbrev pub cfg_size : ℕ
cfg_size = 11

abbrev pub set_output_size : ℕ
set_output_size = 2

-- `pwm_sensor_state_t`
pub record Sensor : Type 0 where
  pub in_use : Bool
  pub gpio_port : ℕ
  pub gpio_pin : PinId
  pub timer_id : ℕ
  pub channel : ℕ

abbrev pub unused : Sensor
unused = record { in_use = false; gpio_port = 0; gpio_pin = (0, 0); timer_id = 0; channel = 0 }

-- What the backend reads and writes: its own variables, the pins, the timers and the sensor manager.
pub record World : Type 0 where
  pub states : List Sensor
  pub pin_owned : List (List Bool)
  pub gpio : Gpio
  pub timers : List Timer
  pub manager : Manager

-- `slot_for`
unfoldable pub slot_for : ℕ → ℕ → ℕ
slot_for timer_id channel = u8 (u8 timer_id * max_channels + (channel - 1))

-- `compute_ccr`, over `uint32_t`
unfoldable pub compute_ccr : ℕ → ℕ → ℕ
compute_ccr arr duty =
    if duty == 0
    then 0
    else (if leb duty_max duty then arr else u32 (u32 (arr + 1) * duty) / duty_max)

-- The channel `ch` of a timer, from 1 to 4, as the switches pick it; another number changes nothing.
abbrev pub channel_at : Timer → ℕ → Channel
channel_at e ch = get_or e.tim.channels (ch - 1) channel_off

set_channel : Timer → ℕ → Channel → Timer
set_channel e ch c =
    if ch == 0
    then e
    else record e { tim = record e.tim { channels = set e.tim.channels (ch - 1) c } }

-- `channel_configure`
unfoldable pub channel_configure : Timer → ℕ → ℕ → Timer
unfolding set_channel
channel_configure e ch ccr =
    set_channel e ch (record { pwm_mode = true; preload = true; enabled = true; ccr = ccr })

-- `channel_set_ccr`
unfoldable pub channel_set_ccr : Timer → ℕ → ℕ → Timer
unfolding set_channel
channel_set_ccr e ch ccr = set_channel e ch (record (channel_at e ch) { ccr = ccr })

-- `channel_disable`
unfoldable pub channel_disable : Timer → ℕ → Timer
unfolding set_channel
channel_disable e ch = set_channel e ch channel_off

-- A call that writes the registers of the timer `id` through its handle.
abbrev pub on_timer : World → ℕ → (Timer → Timer) → World
on_timer w id f = record w { timers = set w.timers id (f (timer_at w.timers id)) }

abbrev pub owned : World → ℕ → ℕ → Bool
owned w port pin = get_or (get_or w.pin_owned port []) pin false

abbrev pub set_owned : World → ℕ → ℕ → Bool → World
set_owned w port pin b = record w {
  pin_owned = set w.pin_owned port (set (get_or w.pin_owned port []) pin b);
}

abbrev pub sensor_at : World → ℕ → Sensor
sensor_at w idx = get_or w.states idx unused

abbrev pub set_sensor : World → ℕ → Sensor → World
set_sensor w idx s = record w { states = set w.states idx s }

-- `pwm_sensor_init` for the variables of this file.
unfoldable pub init : World → World
init w = record w {
  states = replicate slot_pool_size unused;
  pin_owned = replicate (suc Gpio.port_max) (replicate 16 false);
}

-- The fields of the setup payload.
pub record Config : Type 0 where
  pub port : ℕ
  pub pin : ℕ
  pub af : ℕ
  pub timer : ℕ
  pub channel : ℕ
  pub freq_hz : ℕ
  pub duty : ℕ

unfoldable pub config_of : List ℕ → Config
config_of cfg = record {
  port = get_or cfg 0 0;
  pin = get_or cfg 1 0;
  af = get_or cfg 2 0;
  timer = get_or cfg 3 0;
  channel = get_or cfg 4 0;
  freq_hz = read_u32_le cfg 5;
  duty = read_u16_le cfg 9;
}

-- The test of the parameters. `PWM_TIMER_MIN_VAL` is 0, so its comparison is never true.
unfoldable pub out_of_range : Config → Bool
out_of_range c =
    ltb Gpio.port_max c.port
    || (ltb Gpio.pin_max c.pin
        || (c.af == 0
            || (ltb Gpio.af_max c.af
                || (ltb c.timer 0
                    || (ltb (timer_count - 1) c.timer
                        || (ltb c.channel 1
                            || (ltb max_channels c.channel
                                || (ltb duty_max c.duty
                                    || (ltb c.freq_hz freq_min || ltb freq_max c.freq_hz)))))))))

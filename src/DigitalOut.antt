-- ===== src/DigitalOut.antt =====
-- stm32/project/simulate/digital_out/src/digital_out_sensor.c: a digital output is a pin, driven to a
-- level for good or for a pulse that a software timer of FreeRTOS or a hardware timer ends. FreeRTOS
-- is a record of its calls on a state of its own. `!err` for an `err_code_t` is true on success.
pub mod Calls
pub mod Enroll
pub mod Hardware
pub mod Pulse
use hilglebone.Base.{ℕ, suc, ◌+◌, ◌/◌, List, [], ◌∷◌, Bool, true, false, not, ◌&&◌, ◌||◌}
use hilglebone.Base.{u32, ltb, leb, ◌==◌, if◌then◌else◌, get_or, set, replicate, Option, none, some}
use hilglebone.Base.{read_u32_le}
use hilglebone.Base.ErrCode.{ErrCode, is_success}
use hilglebone.Gpio
use hilglebone.Gpio.{Gpio, PinId, OutputType, Speed, Pull}
use hilglebone.HwTimer.{Timer, timer_count}
use hilglebone.HwTimer.Pulse.{pulse_acquire, pulse_release, pulse_start, pulse_max_us}
use hilglebone.Manager
use hilglebone.Manager.{Manager, id_none}

-- `DIGITAL_OUT_SENSOR_MAX_COUNT`, `DIGITAL_OUT_CFG_SIZE`, `DIGITAL_OUT_SET_OUTPUT_SIZE`,
-- `PROTO_ID_DIGITAL_OUT`
abbrev pub max_count : ℕ
max_count = 8

abbrev pub cfg_size : ℕ
cfg_size = 8

abbrev pub set_output_size : ℕ
set_output_size = 5

abbrev pub protocol_id : ℕ
protocol_id = 0x03

-- `DIGITAL_OUT_TIMER_SOFTWARE`, `DIGITAL_OUT_TIMER_HARDWARE`
abbrev pub software : ℕ
software = 0

abbrev pub hardware : ℕ
hardware = 1

-- The software timers of FreeRTOS: xTimerCreate for a one-shot timer with the sensor as its id,
-- xTimerStop, xTimerDelete, xTimerChangePeriod, xTimerStart (whether it is pdPASS), and
-- pdMS_TO_TICKS.
pub record TimerService (K H : Type 0) : Type 0 where
  pub create : K → ℕ → ℕ → Option H × K
  pub stop : K → H → K
  pub delete : K → H → K
  pub change_period : K → H → ℕ → K
  pub start : K → H → Bool × K
  pub ms_to_ticks : ℕ → ℕ

-- `digital_out_state_t`; a level is whether it is high.
pub record Sensor (H : Type 0) : Type 0 where
  pub in_use : Bool
  pub gpio_port : ℕ
  pub gpio_pin : PinId
  pub timer_kind : ℕ
  pub timer_id : ℕ
  pub sw_timer : Option H
  pub pulse_revert_level : Bool

-- What the backend reads and writes.
pub record World (K H : Type 0) : Type 0 where
  pub states : List (Sensor H)
  pub pin_owned : List (List Bool)
  pub gpio : Gpio
  pub timers : List Timer
  pub kernel : K
  pub manager : Manager

-- The fields of the setup payload.
pub record Config : Type 0 where
  pub port : ℕ
  pub pin : ℕ
  pub initial_level : ℕ
  pub output_type : ℕ
  pub speed : ℕ
  pub pull : ℕ
  pub timer_kind : ℕ
  pub timer_id : ℕ

unfoldable pub config_of : List ℕ → Config
config_of cfg = record {
  port = get_or cfg 0 0;
  pin = get_or cfg 1 0;
  initial_level = get_or cfg 2 0;
  output_type = get_or cfg 3 0;
  speed = get_or cfg 4 0;
  pull = get_or cfg 5 0;
  timer_kind = get_or cfg 6 0;
  timer_id = get_or cfg 7 0;
}

-- The test of the parameters.
unfoldable pub out_of_range : Config → Bool
out_of_range c =
    ltb Gpio.port_max c.port
    || (ltb Gpio.pin_max c.pin
        || (ltb 1 c.initial_level
            || (ltb 1 c.output_type
                || (ltb 3 c.speed
                    || (ltb 2 c.pull
                        || (ltb 1 c.timer_kind
                            || (c.timer_kind == hardware && leb timer_count c.timer_id)))))))

-- The casts to the enumerations of gpio.h.
abbrev pub output_type_of : ℕ → OutputType
output_type_of n = if n == 0 then OutputType.push_pull else OutputType.open_drain

abbrev pub speed_of : ℕ → Speed
speed_of n =
    if n == 0
    then Speed.low
    else (if n == 1 then Speed.medium else (if n == 2 then Speed.high else Speed.very_high))

abbrev pub pull_of : ℕ → Pull
pull_of n = if n == 0 then Pull.none else (if n == 1 then Pull.up else Pull.down)

module _ {H : Type 0} where
  abbrev pub unused : Sensor H
  unused = record {
    in_use = false;
    gpio_port = 0;
    gpio_pin = (0, 0);
    timer_kind = 0;
    timer_id = 0;
    sw_timer = none;
    pulse_revert_level = false;
  }

  -- The loop of `alloc_slot` from `i` on; `none` for `DIGITAL_OUT_INTERNAL_ID_NONE`.
  unfoldable pub alloc_from : List (Sensor H) → ℕ → Option ℕ
  alloc_from [] i = none
  alloc_from (s ∷ rest) i =
      let later = alloc_from rest (i + 1) in if s.in_use then later else some i

  abbrev pub stored : Sensor H → Config → Sensor H
  stored s c = record s {
    gpio_port = c.port;
    gpio_pin = (c.port, c.pin);
    timer_kind = c.timer_kind;
    timer_id = c.timer_id;
  }

-- `drive_level`
unfoldable pub drive_level : Gpio → PinId → Bool → Gpio
drive_level g pin true = Gpio.set_high g pin
drive_level g pin false = Gpio.set_low g pin

module _ {K H : Type 0} where
  abbrev pub sensor_at : World K H → ℕ → Sensor H
  sensor_at w idx = get_or w.states idx unused

  abbrev pub set_sensor : World K H → ℕ → Sensor H → World K H
  set_sensor w idx s = record w { states = set w.states idx s }

  abbrev pub owned : World K H → ℕ → ℕ → Bool
  owned w port pin = get_or (get_or w.pin_owned port []) pin false

  abbrev pub set_owned : World K H → ℕ → ℕ → Bool → World K H
  set_owned w port pin b = record w {
    pin_owned = set w.pin_owned port (set (get_or w.pin_owned port []) pin b);
  }

  -- `alloc_slot`
  unfoldable pub alloc_slot : World K H → Option ℕ
  unfolding alloc_from
  alloc_slot w = alloc_from w.states 0

  -- `revert_to_idle_level`, which both timer callbacks call
  unfoldable pub revert_to_idle_level : World K H → ℕ → World K H
  unfolding drive_level
  revert_to_idle_level w internal_id =
      let s = sensor_at w internal_id in
      if leb max_count internal_id || not s.in_use
      then w
      else record w { gpio = drive_level w.gpio s.gpio_pin s.pulse_revert_level }

  -- `validate_cfg`: the status; on success the caller stores what `stored` gives.
  unfoldable pub validate_cfg : World K H → List ℕ → ℕ → ErrCode
  unfolding out_of_range config_of
  validate_cfg w cfg cfg_len =
      let c = config_of cfg in
      if ltb cfg_len cfg_size
      then ErrCode.malformed_payload
      else (if out_of_range c
          then ErrCode.invalid_parameter
          else (if owned w c.port c.pin then ErrCode.pin_conflict else ErrCode.success))

  -- `digital_out_sensor_init`
  unfoldable pub init : World K H → World K H
  init w = record w {
    states = replicate max_count unused;
    pin_owned = replicate (suc Gpio.port_max) (replicate 16 false);
  }

-- ===== src/I2cSensor.antt =====
-- stm32/project/simulate/i2c/src/i2c_sensor.c: an I2C sensor is a peripheral in slave mode with its
-- pins and a register map on the heap. `regmap` of a sensor says whether its pointer is NULL; the
-- array itself is the one that the driver's state for the same index holds, since the backend hands
-- its pointer to i2c_slave_init and both give it up together.
pub mod Calls
pub mod Enroll
pub mod Accept
pub mod Paired
pub mod Setup
pub mod Output
pub mod Steps
use hilglebone.Base.{ℕ, ◌+◌, List, Bool, true, false, not, ◌&&◌, ◌||◌, [], ◌∷◌}
use hilglebone.Base.{
  ltb, leb, ◌==◌, if◌then◌else◌, get_or, set, replicate, bit_and, Option, none, some,
}
use hilglebone.Base.{zero, suc, read_u16_le, read_u32_le}
use hilglebone.Base.Guards.{first_error}
use hilglebone.Base.ErrCode.{ErrCode, is_success}
use hilglebone.Gpio
use hilglebone.Gpio.{Gpio, PinId}
use hilglebone.I2cSlave.{Slave}
use hilglebone.I2cSlave.Control.{Driver, Config, Address}
use hilglebone.Manager.{Manager}

-- `I2C_SENSOR_MAX_COUNT`, `I2C_SENSOR_REGMAP_MAX`, and the bounds of the clock
abbrev pub sensor_max_count : ℕ
sensor_max_count = 3

abbrev pub regmap_max : ℕ
regmap_max = 1024

abbrev pub clock_min_hz : ℕ
clock_min_hz = 10_000

abbrev pub clock_max_hz : ℕ
clock_max_hz = 400_000

-- `I2C_ADDRESS_MODE_7BIT`, `_10BIT`
abbrev pub mode_7bit : ℕ
mode_7bit = 0

abbrev pub mode_10bit : ℕ
mode_10bit = 1

-- `I2C_7BIT_RESERVED_LOW`, `I2C_7BIT_RESERVED_HIGH`, `I2C_10BIT_ADDR_MAX`
abbrev pub reserved_low : ℕ
reserved_low = 0x07

abbrev pub reserved_high : ℕ
reserved_high = 0x78

abbrev pub addr_10bit_max : ℕ
addr_10bit_max = 0x3FF

-- `I2C_CFG_SIZE_NO_PRESET`, `I2C_CFG_SIZE_WITH_PRESET_HEADER`, `I2C_SET_OUTPUT_HEADER_SIZE`
abbrev pub cfg_size : ℕ
cfg_size = 25

abbrev pub preset_header_size : ℕ
preset_header_size = 29

abbrev pub output_header_size : ℕ
output_header_size = 4

-- A bit of the flags: general call, SMBus, PEC, wrap, writes allowed, pull-ups, stretching, reserved.
abbrev pub flag : ℕ → ℕ → Bool
flag flags mask = not (bit_and flags mask == 0)

-- The fields of the validated payload, as `i2c_sensor_state_t` keeps them.
pub record Wire : Type 0 where
  pub clock_hz : ℕ
  pub address_mode : ℕ
  pub primary_addr : ℕ
  pub secondary_addr : ℕ
  pub flags : ℕ
  pub scl_port : ℕ
  pub scl_pin : ℕ
  pub scl_af : ℕ
  pub sda_port : ℕ
  pub sda_pin : ℕ
  pub sda_af : ℕ
  pub reg_addr_width : ℕ
  pub auto_inc_mode : ℕ
  pub register_count : ℕ
  pub response_delay_us : ℕ
  pub clock_stretch_max_us : ℕ

abbrev pub wire_reset : Wire
wire_reset = record {
  clock_hz = 0;
  address_mode = 0;
  primary_addr = 0;
  secondary_addr = 0;
  flags = 0;
  scl_port = 0;
  scl_pin = 0;
  scl_af = 0;
  sda_port = 0;
  sda_pin = 0;
  sda_af = 0;
  reg_addr_width = 0;
  auto_inc_mode = 0;
  register_count = 0;
  response_delay_us = 0;
  clock_stretch_max_us = 0;
}

-- `i2c_sensor_state_t`
pub record Sensor : Type 0 where
  pub in_use : Bool
  pub periph : ℕ
  pub wire : Wire
  pub regmap : Bool

abbrev pub unused : Sensor
unused = record { in_use = false; periph = 0; wire = wire_reset; regmap = false }

-- What the backend reads and writes: its own states, the pins, the driver and the sensor manager.
pub record World : Type 0 where
  pub states : List Sensor
  pub gpio : Gpio
  pub driver : Driver
  pub manager : Manager

abbrev pub sensor_at : World → ℕ → Sensor
sensor_at w idx = get_or w.states idx unused

abbrev pub set_sensor : World → ℕ → Sensor → World
set_sensor w idx s = record w { states = set w.states idx s }

-- The fields of the payload, at the offsets of i2c_sensor.h.
unfoldable pub wire_of : List ℕ → Wire
wire_of cfg = record {
  clock_hz = read_u32_le cfg 0;
  address_mode = get_or cfg 4 0;
  primary_addr = read_u16_le cfg 5;
  secondary_addr = read_u16_le cfg 7;
  flags = get_or cfg 9 0;
  scl_port = get_or cfg 10 0;
  scl_pin = get_or cfg 11 0;
  scl_af = get_or cfg 12 0;
  sda_port = get_or cfg 13 0;
  sda_pin = get_or cfg 14 0;
  sda_af = get_or cfg 15 0;
  reg_addr_width = get_or cfg 16 0;
  auto_inc_mode = get_or cfg 17 0;
  register_count = read_u16_le cfg 18;
  response_delay_us = read_u16_le cfg 20;
  clock_stretch_max_us = read_u16_le cfg 22;
}

-- An address in the ranges that the standard reserves.
abbrev pub reserved : ℕ → Bool
reserved addr = leb addr reserved_low || leb reserved_high addr

-- The tests of `validate_cfg` on the addresses.
unfoldable pub address_error : Wire → Bool
address_error v =
    if v.address_mode == mode_7bit
    then reserved v.primary_addr || (not (v.secondary_addr == 0) && reserved v.secondary_addr)
    else v.primary_addr == 0 || ltb addr_10bit_max v.primary_addr

abbrev pub pin_error : ℕ → ℕ → ℕ → Bool
pin_error port pin af = ltb Gpio.port_max port || (ltb Gpio.pin_max pin || ltb Gpio.af_max af)

-- The tests of `validate_cfg`, in order.
unfoldable pub checks : Wire → ℕ → List (Bool × ErrCode)
unfolding address_error
checks v cfg_len =
    (ltb cfg_len cfg_size, ErrCode.malformed_payload)
    ∷ (flag v.flags 0x80, ErrCode.invalid_parameter)
    ∷ (
      not (v.address_mode == mode_7bit) && not (v.address_mode == mode_10bit),
      ErrCode.i2c_bad_addr_mode,
    )
    ∷ (v.address_mode == mode_10bit && not (v.secondary_addr == 0), ErrCode.i2c_bad_addr_mode)
    ∷ (address_error v, ErrCode.i2c_addr_reserved)
    ∷ (ltb v.clock_hz clock_min_hz || ltb clock_max_hz v.clock_hz, ErrCode.i2c_clock_unsupported)
    ∷ (v.register_count == 0 || ltb regmap_max v.register_count, ErrCode.i2c_regmap_too_large)
    ∷ (pin_error v.scl_port v.scl_pin v.scl_af, ErrCode.invalid_parameter)
    ∷ (pin_error v.sda_port v.sda_pin v.sda_af, ErrCode.invalid_parameter)
    ∷ (ltb 3 v.auto_inc_mode || ltb 2 v.reg_addr_width, ErrCode.invalid_parameter)
    ∷ (flag v.flags 0x04 && not (flag v.flags 0x02), ErrCode.i2c_smbus_required)
    ∷ []

-- `validate_cfg`: the status; on success the caller stores `wire_of cfg`.
unfoldable pub validate_cfg : List ℕ → ℕ → ErrCode
unfolding checks wire_of
validate_cfg cfg cfg_len = first_error (checks (wire_of cfg) cfg_len)

-- The loop of `alloc_slot` from `i` on, over the states that are left.
unfoldable pub alloc_from : List Sensor → ℕ → Option ℕ
alloc_from [] i = none
alloc_from (s ∷ rest) i = let later = alloc_from rest (i + 1) in if s.in_use then later else some i

-- `alloc_slot`; `none` for `I2C_INTERNAL_ID_NONE`
unfoldable pub alloc_slot : World → Option ℕ
alloc_slot w = alloc_from w.states 0

-- `free_slot`; the freed block is gone with the pointer.
unfoldable pub free_slot : World → ℕ → World
free_slot w idx = set_sensor w idx unused

-- ===== src/Base/ErrCode.antt =====
-- stm32/project/shared/inc/err_codes.h: the status codes, which are also the wire's error bytes.
use Prim.Native.Nat.{ℕ}
use mathlib.Core.Bool.{Bool, true, false}

-- `err_code_t`
pub data ErrCode : Type 0 where
  success unknown_cmd malformed_payload bad_crc unsupported : ErrCode
  out_of_resources invalid_sensor_id invalid_parameter peripheral_busy pin_conflict : ErrCode
  not_implemented internal timeout empty : ErrCode
  i2c_no_free_peripheral i2c_clock_unsupported i2c_addr_conflict i2c_addr_reserved : ErrCode
  i2c_regmap_too_large i2c_bad_addr_mode i2c_register_oob i2c_stretch_exceeds_bus : ErrCode
  i2c_smbus_required i2c_unsupported : ErrCode
  pwm_freq_conflict pwm_channel_in_use : ErrCode
  dac_pin_mismatch dac_clock_mismatch dac_channel_in_use : ErrCode

-- The byte that stands for a code.
unfoldable pub code : ErrCode → ℕ
code success = 0x00
code unknown_cmd = 0x01
code malformed_payload = 0x02
code bad_crc = 0x03
code unsupported = 0x04
code out_of_resources = 0x05
code invalid_sensor_id = 0x06
code invalid_parameter = 0x07
code peripheral_busy = 0x08
code pin_conflict = 0x09
code not_implemented = 0x0A
code internal = 0x0B
code timeout = 0x0C
code empty = 0x0D
code i2c_no_free_peripheral = 0x40
code i2c_clock_unsupported = 0x41
code i2c_addr_conflict = 0x42
code i2c_addr_reserved = 0x43
code i2c_regmap_too_large = 0x44
code i2c_bad_addr_mode = 0x45
code i2c_register_oob = 0x46
code i2c_stretch_exceeds_bus = 0x47
code i2c_smbus_required = 0x48
code i2c_unsupported = 0x49
code pwm_freq_conflict = 0x60
code pwm_channel_in_use = 0x61
code dac_pin_mismatch = 0x80
code dac_clock_mismatch = 0x81
code dac_channel_in_use = 0x82

-- `err == ERR_SUCCESS`
abbrev pub is_success : ErrCode → Bool
is_success success = true
is_success _ = false

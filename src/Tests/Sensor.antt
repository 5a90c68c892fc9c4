-- ===== src/Tests/Sensor.antt =====
-- Runs and instances for stm32/project/simulate/i2c/src/i2c_sensor.c.
use hilglebone.Base.{
  ℕ, zero, suc, List, [], ◌∷◌, ◌≡◌, refl, arith, true, false, ◌≤◌, ◌<◌, ◌^◌, take, drop,
  if◌then◌else◌, ◌==◌, ◌||◌, replicate, read_u16_le,
}
use hilglebone.Base.Guards.{first_error}
use hilglebone.Base.ErrCode.{ErrCode, is_success}
use hilglebone.Gpio.{gpio_reset_state}
use hilglebone.Manager
use hilglebone.I2cSlave.{auto_inc_read, auto_inc_both}
use hilglebone.I2cSlave.Access.{run}
use hilglebone.I2cSlave.Control
use hilglebone.I2cSlave.Control.{compute_ccr, slave_at, slave_reset, regs_reset}
use hilglebone.I2cSlave.Transaction.{combined_read}
use hilglebone.I2cSensor
use hilglebone.I2cSensor.{wire_of, validate_cfg, alloc_slot, alloc_from, checks, address_error}
use hilglebone.I2cSensor.Accept.{validate_cfg-init}
use hilglebone.I2cSensor.Calls
use hilglebone.I2cSensor.Calls.{slave_cfg, address_of}
use hilglebone.I2cSensor.Paired.{IsBackend, off-IsPaired}
use hilglebone.I2cSensor.Setup.{setup-IsBackend}
use hilglebone.I2cSensor.Output.{IsWritten, set_output-IsWritten, set_output-combined_read}
use hilglebone.I2cSensor.Steps.{Step, Step-IsBackend}

-- 100 kHz, 7-bit address 0x50, writes allowed, pins B6 and B7, four registers with 8-bit addresses
-- that count on reads and writes, no preset.
abbrev i2c_cfg : List ℕ
i2c_cfg =
    0xA0 ∷ 0x86 ∷ 0x01 ∷ 0 ∷ 0 ∷ 0x50 ∷ 0 ∷ 0 ∷ 0 ∷ 0x10 ∷ 1 ∷ 6 ∷ 4 ∷ 1 ∷ 7 ∷ 4 ∷ 1 ∷ 3 ∷ 4 ∷ 0 ∷ 0
    ∷ 0 ∷ 0 ∷ 0 ∷ 0 ∷ []

abbrev i2c_world : I2cSensor.World
i2c_world = record {
  states = replicate 3 I2cSensor.unused;
  gpio = gpio_reset_state;
  driver = record { slaves = replicate 3 slave_reset; regs = replicate 3 regs_reset };
  manager = Manager.init;
}

i2c_cfg-accepted : is_success (validate_cfg i2c_cfg 25) ≡ true
unfolding validate_cfg checks address_error first_error wire_of
i2c_cfg-accepted = refl

validate_cfg-init_example :
    ((Control.init i2c_world.driver 2
        (address_of (wire_of i2c_cfg))
        (slave_cfg (wire_of i2c_cfg) [])).0
      ≡ (if (slave_at i2c_world.driver 2).initialized
          then ErrCode.peripheral_busy
          else ErrCode.success))
    × ((compute_ccr (wire_of i2c_cfg).clock_hz).1 < 2 ^ 12)
    × (4 ≤ (compute_ccr (wire_of i2c_cfg).clock_hz).1)
validate_cfg-init_example =
    validate_cfg-init i2c_cfg 25 i2c_world.driver 2 [] i2c_cfg-accepted (omega arith)

unused_at : (i : ℕ) → (I2cSensor.sensor_at i2c_world i).in_use ≡ false
unused_at zero = refl
unused_at (suc zero) = refl
unused_at (suc (suc zero)) = refl
unused_at (suc (suc (suc i))) = refl

reset_at : (i : ℕ) → (slave_at i2c_world.driver i).initialized ≡ false
reset_at zero = refl
reset_at (suc zero) = refl
reset_at (suc (suc zero)) = refl
reset_at (suc (suc (suc i))) = refl

i2c_world-IsBackend : IsBackend i2c_world
i2c_world-IsBackend = record {
  states = refl;
  slaves = refl;
  pairs = λ i h. off-IsPaired i _ _ (unused_at i) (reset_at i);
}

-- The sensor of that configuration.
abbrev i2c_live : I2cSensor.World
i2c_live = (Calls.setup i2c_world i2c_cfg 25 true).2

i2c_live-IsBackend : IsBackend i2c_live
i2c_live-IsBackend = setup-IsBackend i2c_world i2c_cfg 25 true i2c_world-IsBackend (omega arith)

-- Registers 1 and 2 become 0xBE and 0xEF.
abbrev i2c_values : List ℕ
i2c_values = 1 ∷ 0 ∷ 2 ∷ 0 ∷ 0xBE ∷ 0xEF ∷ []

i2c_live-accepts : is_success (Calls.set_output i2c_live 0 i2c_values 6).0 ≡ true
unfolding Calls.setup Calls.setup_at alloc_slot alloc_from validate_cfg checks address_error
    first_error wire_of Calls.preset_of Calls.preset_checks Calls.regmap_of Calls.attach
    Calls.connect_pins Calls.slave_cfg Control.init Control.cfg_valid Control.addresses_valid
    Control.configured Control.prepared Calls.enroll Manager.register Manager.find_slot
    Manager.allocate_id Manager.allocate_from Manager.id_in_use Manager.init Manager.next_hint
    Calls.set_output Calls.output_checks Calls.written
i2c_live-accepts = refl

set_output-IsWritten_example :
    IsWritten i2c_live (Calls.set_output i2c_live 0 i2c_values 6).1 0 i2c_values 6
set_output-IsWritten_example =
    set_output-IsWritten i2c_live 0 i2c_values 6 i2c_live-IsBackend (omega arith) i2c_live-accepts

i2c_live-config :
    ((slave_at i2c_live.driver 0).reg_addr_width ≡ 1)
    × (((slave_at i2c_live.driver 0).auto_inc_mode == auto_inc_read
          || (slave_at i2c_live.driver 0).auto_inc_mode == auto_inc_both)
        ≡ true)
unfolding Calls.setup Calls.setup_at alloc_slot alloc_from validate_cfg checks address_error
    first_error wire_of Calls.preset_of Calls.preset_checks Calls.regmap_of Calls.attach
    Calls.connect_pins Calls.slave_cfg Control.init Control.cfg_valid Control.addresses_valid
    Control.configured Control.prepared Calls.enroll Manager.register Manager.find_slot
    Manager.allocate_id Manager.allocate_from Manager.id_in_use Manager.init Manager.next_hint
    Calls.set_output Calls.output_checks Calls.written
i2c_live-config = (refl, refl)

set_output-combined_read_example :
    (run
      (slave_at (Calls.set_output i2c_live 0 i2c_values 6).1.driver 0)
      (combined_read (read_u16_le i2c_values 0) (read_u16_le i2c_values 2))).1
    ≡ take (read_u16_le i2c_values 2) (drop 4 i2c_values)
set_output-combined_read_example =
    set_output-combined_read i2c_live 0 i2c_values 6 i2c_live-IsBackend (omega arith)
      i2c_live-accepts (i2c_live-config.0) (i2c_live-config.1) (omega arith)

Step-IsBackend_example : IsBackend (Calls.stop i2c_live 0).1
Step-IsBackend_example =
    Step-IsBackend i2c_live (Calls.stop i2c_live 0).1 (Step.stops i2c_live 0) i2c_live-IsBackend

-- ===== src/I2cSensor/Calls.antt =====
-- The calls that the dispatcher makes into i2c_sensor.c. Whether pvPortMalloc gives memory is an
-- argument of the setup.
use hilglebone.Base.{ℕ, ◌+◌, ◌-◌, List, [], ◌∷◌, Bool, true, false, not, ◌&&◌, ◌||◌}
use hilglebone.Base.{u16, ltb, leb, ◌==◌, if◌then◌else◌, get_or, replicate, copy, set, none, some}
use hilglebone.Base.{read_u16_le}
use hilglebone.Base.Guards.{first_error}
use hilglebone.Base.ErrCode.{ErrCode, is_success}
use hilglebone.Gpio.{Gpio, enable_clock, configure_af, reset_to_defaults, Speed, Pull, OutputType}
use hilglebone.I2cSlave.Control
use hilglebone.I2cSlave.Control.{Config, Address, slave_at}
use hilglebone.Manager
use hilglebone.Manager.{id_none}
use hilglebone.I2cSensor.{
  World, Sensor, Wire, sensor_at, set_sensor, wire_of, validate_cfg, alloc_slot, free_slot, flag,
  preset_header_size, output_header_size, sensor_max_count,
}

-- `PROTO_ID_I2C`
abbrev pub protocol_id : ℕ
protocol_id = 0x01

-- The loop of `i2c_sensor_init`.
unfoldable pub clear_all : List Sensor → List Sensor
clear_all [] = []
clear_all (s ∷ rest) = record s { in_use = false; regmap = false } ∷ clear_all rest

-- `i2c_sensor_init`
unfoldable pub init : World → World
unfolding clear_all
init w = record w { states = clear_all w.states }

-- The preset block of the payload.
pub record Preset : Type 0 where
  pub marker : ℕ
  pub reg_start : ℕ
  pub value_len : ℕ

unfoldable pub preset_of : List ℕ → Preset
preset_of cfg = record {
  marker = get_or cfg 24 0;
  reg_start = read_u16_le cfg 25;
  value_len = read_u16_le cfg 27;
}

abbrev pub present : Preset → Bool
present p = p.marker == 1

-- The tests of `i2c_sensor_setup` on the preset block, in order.
unfoldable pub preset_checks : Wire → Preset → ℕ → List (Bool × ErrCode)
preset_checks v p cfg_len =
    (present p && ltb cfg_len preset_header_size, ErrCode.malformed_payload)
    ∷ (present p && p.value_len == 0, ErrCode.invalid_parameter)
    ∷ (present p && ltb cfg_len (u16 (preset_header_size + p.value_len)), ErrCode.malformed_payload)
    ∷ (present p && ltb v.register_count (p.reg_start + p.value_len), ErrCode.i2c_register_oob)
    ∷ (not (present p) && not (p.marker == 0), ErrCode.invalid_parameter)
    ∷ []

-- The register map behind the memset and the memcpy.
unfoldable pub regmap_of : Wire → Preset → List ℕ → List ℕ
regmap_of v p cfg =
    let zeroed = replicate v.register_count 0 in
    if present p then copy zeroed p.reg_start cfg preset_header_size p.value_len else zeroed

-- The configuration for the driver.
unfoldable pub slave_cfg : Wire → List ℕ → Config
slave_cfg v regmap = record {
  regmap = regmap;
  regmap_len = v.register_count;
  reg_addr_width = v.reg_addr_width;
  auto_inc_mode = v.auto_inc_mode;
  auto_inc_wrap = flag v.flags 0x08;
  writes_allowed = flag v.flags 0x10;
  general_call = flag v.flags 0x01;
  clock_stretch = flag v.flags 0x40;
}

abbrev pub address_of : Wire → Address
address_of v = record {
  clock_hz = v.clock_hz;
  addr_mode = v.address_mode;
  primary_addr = v.primary_addr;
  secondary_addr = v.secondary_addr;
}

-- Both pins as open-drain lines of the peripheral, and both pins released.
unfoldable pub connect_pins : Gpio → Wire → Gpio
connect_pins g v =
    let pull = if flag v.flags 0x20 then Pull.up else Pull.none in
    let g₁ = enable_clock (enable_clock g v.scl_port) v.sda_port in
    let g₂ =
      configure_af g₁ (v.scl_port, v.scl_pin) v.scl_af Speed.high pull OutputType.open_drain in
    configure_af g₂ (v.sda_port, v.sda_pin) v.sda_af Speed.high pull OutputType.open_drain

abbrev pub release_pins : Gpio → Wire → Gpio
release_pins g v =
    reset_to_defaults (reset_to_defaults g (v.scl_port, v.scl_pin)) (v.sda_port, v.sda_pin)

-- What `i2c_sensor_stop` does to a sensor in use, and `i2c_sensor_setup` when the manager is full.
unfoldable pub detach : World → ℕ → Sensor → World
unfolding free_slot
detach w idx s =
    free_slot
      (record w {
        driver = (Control.deinit w.driver s.periph).1;
        gpio = release_pins w.gpio s.wire;
      })
      idx

-- `i2c_sensor_setup` from the registration with the manager on.
unfoldable pub enroll : World → ℕ → Sensor → ErrCode × ℕ × World
unfolding detach
enroll w idx s =
    let (id, manager) = Manager.register w.manager protocol_id idx in
    let w' = record w { manager = manager } in
    if id == id_none
    then (ErrCode.out_of_resources, id_none, detach w' idx s)
    else (ErrCode.success, id, w')

-- `i2c_sensor_setup` with the register map allocated and filled.
unfoldable pub attach : World → ℕ → Wire → List ℕ → ErrCode × ℕ × World
unfolding enroll connect_pins slave_cfg free_slot
attach w idx v regmap =
    let g = connect_pins w.gpio v in
    let (err, driver) = Control.init w.driver idx (address_of v) (slave_cfg v regmap) in
    let s : Sensor = record { in_use = true; periph = idx; wire = v; regmap = true } in
    if not (is_success err)
    then (err, id_none, free_slot (record w { gpio = release_pins g v; driver = driver }) idx)
    else enroll (set_sensor (record w { gpio = g; driver = driver }) idx s) idx s

-- `i2c_sensor_setup` in the slot that `alloc_slot` found.
unfoldable pub setup_at : World → ℕ → List ℕ → ℕ → Bool → ErrCode × ℕ × World
unfolding attach preset_checks preset_of regmap_of wire_of
setup_at w idx cfg cfg_len heap =
    let v = wire_of cfg in
    let p = preset_of cfg in
    let stored = record (sensor_at w idx) { wire = v } in
    let valid = validate_cfg cfg cfg_len in
    let fits = first_error (preset_checks v p cfg_len) in
    if not (is_success valid)
    then (valid, id_none, w)
    else (if not (is_success fits)
        then (fits, id_none, set_sensor w idx stored)
        else (if not heap
            then (
              ErrCode.out_of_resources,
              id_none,
              set_sensor w idx (record stored { regmap = false }),
            )
            else attach w idx v (regmap_of v p cfg)))

-- `i2c_sensor_setup`: the status, `*out_sensor_id` and the new state.
unfoldable pub setup : World → List ℕ → ℕ → Bool → ErrCode × ℕ × World
unfolding setup_at
setup w cfg cfg_len heap = elim (alloc_slot w) [
  | none ↦ (ErrCode.i2c_no_free_peripheral, id_none, w)
  | some idx ↦ setup_at w idx cfg cfg_len heap
]

-- The tests of `i2c_sensor_set_output`, in order.
unfoldable pub output_checks : World → ℕ → List ℕ → ℕ → List (Bool × ErrCode)
output_checks w internal_id values values_len =
    let s = sensor_at w internal_id in
    let reg_start = read_u16_le values 0 in
    let write_len = read_u16_le values 2 in
    (leb sensor_max_count internal_id, ErrCode.invalid_sensor_id)
    ∷ (not s.in_use, ErrCode.invalid_sensor_id)
    ∷ (ltb values_len output_header_size, ErrCode.malformed_payload)
    ∷ (write_len == 0, ErrCode.invalid_parameter)
    ∷ (ltb values_len (u16 (output_header_size + write_len)), ErrCode.malformed_payload)
    ∷ (
      ltb s.wire.register_count reg_start || ltb (s.wire.register_count - reg_start) write_len,
      ErrCode.i2c_register_oob,
    )
    ∷ []

-- The memcpy of `i2c_sensor_set_output` into the register map of the sensor.
unfoldable pub written : World → ℕ → List ℕ → World
written w internal_id values =
    let s = slave_at w.driver internal_id in
    let at = read_u16_le values 0 in
    let n = read_u16_le values 2 in
    let s' = record s { regmap = copy s.regmap at values output_header_size n } in
    record w { driver = record w.driver { slaves = set w.driver.slaves internal_id s' } }

-- `i2c_sensor_set_output`
unfoldable pub set_output : World → ℕ → List ℕ → ℕ → ErrCode × World
unfolding output_checks written
set_output w internal_id values values_len =
    let err = first_error (output_checks w internal_id values values_len) in
    if is_success err then (err, written w internal_id values) else (err, w)

-- `i2c_sensor_stop`
unfoldable pub stop : World → ℕ → ErrCode × World
unfolding detach
stop w internal_id =
    let s = sensor_at w internal_id in
    if leb sensor_max_count internal_id || not s.in_use
    then (ErrCode.invalid_sensor_id, w)
    else (ErrCode.success, detach w internal_id s)

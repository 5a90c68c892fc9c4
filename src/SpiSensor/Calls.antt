-- ===== src/SpiSensor/Calls.antt =====
-- The calls that the dispatcher makes into spi_slave_sensor.c.
use hilglebone.Base.{ℕ, ◌+◌, List, not, ◌||◌}
use hilglebone.Base.{u8, u16, ltb, leb, ◌==◌, if◌then◌else◌, drop}
use hilglebone.Base.{read_u16_le}
use hilglebone.Base.ErrCode.{ErrCode, is_success}
use hilglebone.Manager
use hilglebone.Manager.{id_none}
use hilglebone.SpiSlave
use hilglebone.SpiSensor.{
  World, Config, config_of, out_of_range, sensor_at, set_sensor, sensor_of, connect_pins,
  release_pins, sensor_teardown, cfg_min_size, set_output_min_size, max_count, protocol_id,
}
use hilglebone.SpiSlave.{tx_buf_max}

-- `spi_slave_sensor_setup` from the registration with the manager on.
unfoldable pub enroll : World → ℕ → ErrCode × ℕ × World
unfolding sensor_teardown
enroll w idx =
    let (id, manager) = Manager.register w.manager protocol_id idx in
    let w' = record w { manager = manager } in
    if id == id_none
    then (ErrCode.out_of_resources, id_none, sensor_teardown w' idx)
    else (ErrCode.success, id, w')

-- `spi_slave_sensor_setup` behind its guards: the pins, the driver, its buffer.
unfoldable pub attach : World → Config → List ℕ → ErrCode × ℕ × World
unfolding connect_pins release_pins enroll
attach w c tx_data =
    let g = connect_pins w.gpio c in
    let released = release_pins g (sensor_of c) in
    let (err, bus, _) = SpiSlave.init w.bus c.periph c.mode in
    let (err', bus', _) = SpiSlave.set_tx bus c.periph tx_data (u8 c.tx_buf_len) in
    let undone = (SpiSlave.deinit bus' c.periph).1 in
    if not (is_success err)
    then (err, id_none, record w { gpio = released; bus = bus })
    else (if not (is_success err')
        then (err', id_none, record w { gpio = released; bus = undone })
        else enroll (set_sensor (record w { gpio = g; bus = bus' }) c.periph (sensor_of c))
            c.periph)

-- `spi_slave_sensor_setup`
unfoldable pub setup : World → List ℕ → ℕ → ErrCode × ℕ × World
unfolding attach out_of_range config_of
setup w cfg cfg_len =
    let c = config_of cfg in
    if ltb cfg_len cfg_min_size || ltb cfg_len (u16 (cfg_min_size + c.tx_buf_len))
    then (ErrCode.malformed_payload, id_none, w)
    else (if out_of_range c
        then (ErrCode.invalid_parameter, id_none, w)
        else (if (sensor_at w c.periph).in_use
            then (ErrCode.peripheral_busy, id_none, w)
            else attach w c (drop cfg_min_size cfg)))

-- `spi_slave_sensor_set_output`
unfoldable pub set_output : World → ℕ → List ℕ → ℕ → ErrCode × World
set_output w internal_id values values_len =
    let s = sensor_at w internal_id in
    let tx_buf_len = read_u16_le values 0 in
    let (err, bus, _) =
      SpiSlave.set_tx w.bus s.periph (drop set_output_min_size values) (u8 tx_buf_len) in
    if leb max_count internal_id || not s.in_use
    then (ErrCode.invalid_sensor_id, w)
    else (if ltb values_len set_output_min_size
          || ltb values_len (u16 (set_output_min_size + tx_buf_len))
        then (ErrCode.malformed_payload, w)
        else (if tx_buf_len == 0 || ltb tx_buf_max tx_buf_len
            then (ErrCode.invalid_parameter, w)
            else (err, record w { bus = bus })))

-- `spi_slave_sensor_stop`
unfoldable pub stop : World → ℕ → ErrCode × World
unfolding sensor_teardown
stop w internal_id =
    if leb max_count internal_id || not (sensor_at w internal_id).in_use
    then (ErrCode.invalid_sensor_id, w)
    else (ErrCode.success, sensor_teardown w internal_id)

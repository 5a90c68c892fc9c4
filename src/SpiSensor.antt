-- ===== src/SpiSensor.antt =====
-- stm32/project/simulate/spi_slave/src/spi_slave_sensor.c: an SPI sensor is a peripheral in slave mode
-- with its pins and a buffer that it serves.
pub mod Calls
pub mod Enroll
use hilglebone.Base.{ℕ, List, Bool, true, false, not, ◌&&◌, ◌||◌}
use hilglebone.Base.{ltb, leb, ◌==◌, if◌then◌else◌, get_or, set, replicate}
use hilglebone.Base.{read_u16_le}
use hilglebone.Gpio
use hilglebone.Gpio.{Gpio, PinId, Speed, Pull, OutputType}
use hilglebone.Manager.{Manager}
use hilglebone.Spi
use hilglebone.SpiSlave
use hilglebone.SpiSlave.{Bus}

-- `SPI_SLAVE_SENSOR_MAX_COUNT`, `SPI_SLAVE_CFG_MIN_SIZE`, `SPI_SLAVE_SET_OUTPUT_MIN_SIZE`,
-- `SPI_SLAVE_MOSI_PORT_DISABLED`, `PROTO_ID_SPI`
abbrev pub max_count : ℕ
max_count = Spi.periph_count

abbrev pub cfg_min_size : ℕ
cfg_min_size = 16

abbrev pub set_output_min_size : ℕ
set_output_min_size = 2

abbrev pub mosi_disabled : ℕ
mosi_disabled = 0xFF

abbrev pub protocol_id : ℕ
protocol_id = 0x02

-- `spi_slave_sensor_state_t`
pub record Sensor : Type 0 where
  pub in_use : Bool
  pub periph : ℕ
  pub miso_pin : PinId
  pub sck_pin : PinId
  pub nss_pin : PinId
  pub mosi_pin : PinId
  pub mosi_enabled : Bool

abbrev pub unused : Sensor
unused = record {
  in_use = false;
  periph = 0;
  miso_pin = (0, 0);
  sck_pin = (0, 0);
  nss_pin = (0, 0);
  mosi_pin = (0, 0);
  mosi_enabled = false;
}

-- What the backend reads and writes.
pub record World : Type 0 where
  pub states : List Sensor
  pub gpio : Gpio
  pub bus : Bus
  pub manager : Manager

abbrev pub sensor_at : World → ℕ → Sensor
sensor_at w idx = get_or w.states idx unused

abbrev pub set_sensor : World → ℕ → Sensor → World
set_sensor w idx s = record w { states = set w.states idx s }

-- A port, a pin and an alternate function of the payload.
pub record Wire : Type 0 where
  pub port : ℕ
  pub pin : ℕ
  pub af : ℕ

-- The fields of the setup payload.
pub record Config : Type 0 where
  pub periph : ℕ
  pub mode : ℕ
  pub miso : Wire
  pub sck : Wire
  pub nss : Wire
  pub mosi : Wire
  pub tx_buf_len : ℕ

abbrev wire_at : List ℕ → ℕ → ℕ → ℕ → Wire
wire_at cfg port pin af = record {
  port = get_or cfg port 0;
  pin = get_or cfg pin 0;
  af = get_or cfg af 0;
}

unfoldable pub config_of : List ℕ → Config
config_of cfg = record {
  periph = get_or cfg 0 0;
  mode = get_or cfg 1 0;
  miso = wire_at cfg 2 3 4;
  sck = wire_at cfg 5 6 7;
  nss = wire_at cfg 8 9 10;
  mosi = wire_at cfg 11 12 13;
  tx_buf_len = read_u16_le cfg 14;
}

abbrev pub mosi_enabled : Config → Bool
mosi_enabled c = not (c.mosi.port == mosi_disabled)

abbrev pub wire_error : Wire → Bool
wire_error v =
    ltb Gpio.port_max v.port || (ltb Gpio.pin_max v.pin || (v.af == 0 || ltb Gpio.af_max v.af))

-- The test of the parameters.
unfoldable pub out_of_range : Config → Bool
out_of_range c =
    leb Spi.periph_count c.periph
    || (ltb Spi.mode_max c.mode
        || (wire_error c.miso
            || (wire_error c.sck
                || (wire_error c.nss
                    || ((mosi_enabled c && wire_error c.mosi)
                        || (c.tx_buf_len == 0 || ltb SpiSlave.tx_buf_max c.tx_buf_len))))))

-- One pin of the peripheral.
unfoldable pub connect : Gpio → Wire → Gpio
connect g v =
    Gpio.configure_af (Gpio.enable_clock g v.port) (v.port, v.pin) v.af Speed.high Pull.none
      OutputType.push_pull

-- The sensor that a setup stores.
abbrev pub sensor_of : Config → Sensor
sensor_of c = record {
  in_use = true;
  periph = c.periph;
  miso_pin = (c.miso.port, c.miso.pin);
  sck_pin = (c.sck.port, c.sck.pin);
  nss_pin = (c.nss.port, c.nss.pin);
  mosi_pin = if mosi_enabled c then (c.mosi.port, c.mosi.pin) else (0, 0);
  mosi_enabled = mosi_enabled c;
}

-- The pins of a setup, and the pins released.
unfoldable pub connect_pins : Gpio → Config → Gpio
unfolding connect
connect_pins g c =
    let three = connect (connect (connect g c.miso) c.sck) c.nss in
    if mosi_enabled c then connect three c.mosi else three

unfoldable pub release_pins : Gpio → Sensor → Gpio
release_pins g s =
    let three =
      Gpio.reset_to_defaults
        (Gpio.reset_to_defaults (Gpio.reset_to_defaults g s.miso_pin) s.sck_pin) s.nss_pin in
    if s.mosi_enabled then Gpio.reset_to_defaults three s.mosi_pin else three

-- `sensor_teardown` of the sensor at `idx`.
unfoldable pub sensor_teardown : World → ℕ → World
unfolding release_pins
sensor_teardown w idx =
    let s = sensor_at w idx in
    set_sensor (record w { bus = (SpiSlave.deinit w.bus s.periph).1; gpio = release_pins w.gpio s })
      idx (record s { in_use = false })

-- `spi_slave_sensor_init`
unfoldable pub init : World → World
init w = record w { states = replicate max_count unused }

-- ===== src/Dac.antt =====
-- stm32/project/simulate/dac/src/dac_sensor.c: a DAC8568 on each SPI bus, whose eight channels are
-- sensors. The semaphores of FreeRTOS are a record of its calls on a state of its own. A pin with
-- the NULL port stands at port 0xFF, which is also the number that gives NULL on the wire.
pub mod Write
pub mod Calls
pub mod Enroll
use hilglebone.Base.{ℕ, ◌+◌, ◌*◌, ◌%◌, ◌^◌, List, Bool, true, false, not, ◌&&◌, ◌||◌}
use hilglebone.Base.{u8, ltb, leb, ◌==◌, if◌then◌else◌, get_or, set, replicate, Option, none, some}
use hilglebone.Base.{read_u16_le, read_u32_le, write_u32_be, bit_and, bit_or, ◌<<◌}
use hilglebone.Gpio
use hilglebone.Gpio.{Gpio, PinId}
use hilglebone.Manager.{Manager}
use hilglebone.Spi
use hilglebone.SpiMaster.{Bus}

-- `DAC_CHANNELS_PER_CHIP`, `DAC_SENSOR_MAX_COUNT`, `DAC_SPI_FRAME_SIZE`, `DAC_CFG_SIZE`,
-- `DAC_SET_OUTPUT_SIZE`, `PROTO_ID_DAC`
abbrev pub channels_per_chip : ℕ
channels_per_chip = 8

abbrev pub max_count : ℕ
max_count = 16

abbrev pub frame_size : ℕ
frame_size = 4

abbrev pub cfg_size : ℕ
cfg_size = 20

abbrev pub set_output_size : ℕ
set_output_size = 2

abbrev pub protocol_id : ℕ
protocol_id = 0x05

-- `DAC_CMD_WRITE_AND_LOAD`, `DAC_CMD_REF_SETUP`, `DAC_ADDR_REF`, and the data of the references
abbrev pub cmd_write_and_load : ℕ
cmd_write_and_load = 0x3

abbrev pub cmd_ref_setup : ℕ
cmd_ref_setup = 0x8

abbrev pub addr_ref : ℕ
addr_ref = 0x0

abbrev pub ref_data : ℕ → ℕ
ref_data reference = if reference == 2 then 0x0003 else 0x0001

-- `DAC_LDAC_PORT_DISABLED`
abbrev pub ldac_disabled : ℕ
ldac_disabled = 0xFF

-- `SPI_MASTER_SPI1_MAX_CLOCK_HZ`, `SPI_MASTER_SPI2_MAX_CLOCK_HZ`
abbrev pub max_clock : ℕ → ℕ
max_clock periph = if periph == 0 then 42_000_000 else 21_000_000

-- xSemaphoreCreateBinary, vSemaphoreDelete, xSemaphoreGiveFromISR, and xSemaphoreTake with a timeout:
-- whether it is pdTRUE.
pub record Semaphores (K H : Type 0) : Type 0 where
  pub create : K → Option H × K
  pub delete : K → H → K
  pub give : K → H → K
  pub take : K → H → Bool × K

-- `dac_chip_t`
pub record Chip (H : Type 0) : Type 0 where
  pub initialized : Bool
  pub periph : ℕ
  pub clock_hz : ℕ
  pub spi_mode : ℕ
  pub mosi_pin : PinId
  pub sck_pin : PinId
  pub cs_pin : PinId
  pub ldac_pin : PinId
  pub ldac_enabled : Bool
  pub channels_active : List Bool
  pub tx_done : Option H
  pub tx_buf : List ℕ

-- `dac_sensor_state_t`
pub record Sensor : Type 0 where
  pub in_use : Bool
  pub periph : ℕ
  pub channel : ℕ

abbrev pub unused : Sensor
unused = record { in_use = false; periph = 0; channel = 0 }

module _ {H : Type 0} where
  abbrev pub chip_reset : Chip H
  chip_reset = record {
    initialized = false;
    periph = 0;
    clock_hz = 0;
    spi_mode = 0;
    mosi_pin = (0xFF, 0);
    sck_pin = (0xFF, 0);
    cs_pin = (0xFF, 0);
    ldac_pin = (0xFF, 0);
    ldac_enabled = false;
    channels_active = replicate channels_per_chip false;
    tx_done = none;
    tx_buf = replicate frame_size 0;
  }

-- What the backend reads and writes.
pub record World (K H : Type 0) : Type 0 where
  pub chips : List (Chip H)
  pub states : List Sensor
  pub gpio : Gpio
  pub bus : Bus
  pub kernel : K
  pub manager : Manager

module _ {K H : Type 0} where
  abbrev pub chip_at : World K H → ℕ → Chip H
  chip_at w periph = get_or w.chips periph chip_reset

  abbrev pub set_chip : World K H → ℕ → Chip H → World K H
  set_chip w periph c = record w { chips = set w.chips periph c }

  abbrev pub sensor_at : World K H → ℕ → Sensor
  sensor_at w idx = get_or w.states idx unused

  abbrev pub set_sensor : World K H → ℕ → Sensor → World K H
  set_sensor w idx s = record w { states = set w.states idx s }

  -- `dac_sensor_init`
  unfoldable pub init : World K H → World K H
  init w = record w {
    chips = replicate Spi.periph_count chip_reset;
    states = replicate max_count unused;
  }

-- `slot_for`
unfoldable pub slot_for : ℕ → ℕ → ℕ
slot_for periph channel = u8 (u8 periph * channels_per_chip + channel)

-- The word of `build_frame`, over `uint32_t`
unfoldable pub frame_word : ℕ → ℕ → ℕ → ℕ
frame_word command address data_word =
    bit_or (bit_or ((bit_and command 0xF << 24) % 2 ^ 32) ((bit_and address 0xF << 20) % 2 ^ 32))
      ((data_word << 4) % 2 ^ 32)

-- `build_frame`
unfoldable pub build_frame : List ℕ → ℕ → ℕ → ℕ → List ℕ
unfolding frame_word
build_frame out command address data_word =
    write_u32_be out 0 (frame_word command address data_word)

-- The fields of the setup payload.
pub record Config : Type 0 where
  pub periph : ℕ
  pub clock_hz : ℕ
  pub mosi : PinId
  pub mosi_af : ℕ
  pub sck : PinId
  pub sck_af : ℕ
  pub cs : PinId
  pub ldac : PinId
  pub channel : ℕ
  pub reference : ℕ
  pub spi_mode : ℕ
  pub initial_value : ℕ

unfoldable pub config_of : List ℕ → Config
config_of cfg = record {
  periph = get_or cfg 0 0;
  clock_hz = read_u32_le cfg 1;
  mosi = (get_or cfg 5 0, get_or cfg 6 0);
  mosi_af = get_or cfg 7 0;
  sck = (get_or cfg 8 0, get_or cfg 9 0);
  sck_af = get_or cfg 10 0;
  cs = (get_or cfg 11 0, get_or cfg 12 0);
  ldac = (get_or cfg 13 0, get_or cfg 14 0);
  channel = get_or cfg 15 0;
  reference = get_or cfg 16 0;
  spi_mode = get_or cfg 17 0;
  initial_value = read_u16_le cfg 18;
}

abbrev pub ldac_enabled : Config → Bool
ldac_enabled c = not (c.ldac.0 == ldac_disabled)

abbrev pub pin_error : PinId → Bool
pin_error (port, pin) = ltb Gpio.port_max port || ltb Gpio.pin_max pin

abbrev pub af_error : ℕ → Bool
af_error af = af == 0 || ltb Gpio.af_max af

-- The test of the parameters.
unfoldable pub out_of_range : Config → Bool
out_of_range c =
    leb Spi.periph_count c.periph
    || (c.clock_hz == 0
        || (pin_error c.mosi
            || (af_error c.mosi_af
                || (pin_error c.sck
                    || (af_error c.sck_af
                        || (pin_error c.cs
                            || ((ldac_enabled c && pin_error c.ldac)
                                || (ltb 7 c.channel
                                    || (ltb 2 c.reference || ltb Spi.mode_max c.spi_mode)))))))))

abbrev pub same_pin : PinId → PinId → Bool
same_pin (port, pin) (port', pin') = port == port' && pin == pin'

-- ===== src/Gpio.antt =====
-- stm32/project/drivers/gpio: the configuration of the pins. A field of a register that belongs to
-- one pin stands in the pin's record, so the macros of gpio_regs.h, which clear the field and set
-- it, are updates of that record. A `gpio_pin_t` is the pair of its port and number.
use hilglebone.Base.{ℕ, List, Bool, true, false, get_or, set, replicate, not}

-- `GPIO_PORT_MAX`, `GPIO_PIN_MAX`, `GPIO_AF_MAX`
abbrev pub port_max : ℕ
port_max = 5

abbrev pub pin_max : ℕ
pin_max = 15

abbrev pub af_max : ℕ
af_max = 15

-- The values of MODER.
pub data Mode : Type 0 where
  input output alternate analog : Mode

-- `gpio_output_type_t`
pub data OutputType : Type 0 where
  push_pull open_drain : OutputType

-- `gpio_speed_t`
pub data Speed : Type 0 where
  low medium high very_high : Speed

-- `gpio_pull_t`
pub data Pull : Type 0 where
  none up down : Pull

-- The fields of MODER, OTYPER, OSPEEDR, PUPDR, AFR and ODR for one pin.
pub record Pin : Type 0 where
  pub mode : Mode
  pub output_type : OutputType
  pub speed : Speed
  pub pull : Pull
  pub af : ℕ
  pub level : Bool

-- A port with its clock gate.
pub record Port : Type 0 where
  pub clock_on : Bool
  pub pins : List Pin

abbrev pub pin_reset : Pin
pin_reset = record {
  mode = Mode.input;
  output_type = OutputType.push_pull;
  speed = Speed.low;
  pull = Pull.none;
  af = 0;
  level = false;
}

abbrev pub port_reset : Port
port_reset = record { clock_on = false; pins = replicate 16 pin_reset }

abbrev pub Gpio : Type 0
Gpio = List Port

abbrev pub gpio_reset_state : Gpio
gpio_reset_state = replicate 6 port_reset

-- `gpio_pin_t`
abbrev pub PinId : Type 0
PinId = ℕ × ℕ

abbrev pub pin_at : Gpio → PinId → Pin
pin_at g (port, pin) = get_or (get_or g port port_reset).pins pin pin_reset

abbrev pub set_pin : Gpio → PinId → Pin → Gpio
set_pin g (port, pin) p =
    let q = get_or g port port_reset in set g port (record q { pins = set q.pins pin p })

-- `gpio_enable_clock`
unfoldable pub enable_clock : Gpio → ℕ → Gpio
enable_clock g port = set g port (record (get_or g port port_reset) { clock_on = true })

-- `gpio_configure_output`
unfoldable pub configure_output : Gpio → PinId → OutputType → Speed → Pull → Bool → Gpio
configure_output g id output_type speed pull initial_level = set_pin g id (record (pin_at g id) {
  level = initial_level;
  output_type = output_type;
  speed = speed;
  pull = pull;
  mode = Mode.output;
})

-- `gpio_configure_input`
unfoldable pub configure_input : Gpio → PinId → Pull → Gpio
configure_input g id pull = set_pin g id (record (pin_at g id) { mode = Mode.input; pull = pull })

-- `gpio_configure_af`
unfoldable pub configure_af : Gpio → PinId → ℕ → Speed → Pull → OutputType → Gpio
configure_af g id af speed pull output_type = set_pin g id (record (pin_at g id) {
  af = af;
  speed = speed;
  pull = pull;
  output_type = output_type;
  mode = Mode.alternate;
})

-- `gpio_reset_to_defaults`
unfoldable pub reset_to_defaults : Gpio → PinId → Gpio
reset_to_defaults g id = set_pin g id (record (pin_at g id) {
  mode = Mode.input;
  pull = Pull.none;
  output_type = OutputType.push_pull;
})

-- `gpio_set`, `gpio_reset`, `gpio_toggle`
unfoldable pub set_high : Gpio → PinId → Gpio
set_high g id = set_pin g id (record (pin_at g id) { level = true })

unfoldable pub set_low : Gpio → PinId → Gpio
set_low g id = set_pin g id (record (pin_at g id) { level = false })

unfoldable pub toggle : Gpio → PinId → Gpio
toggle g id = set_pin g id (record (pin_at g id) { level = not (pin_at g id).level })

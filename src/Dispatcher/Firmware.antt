-- ===== src/Dispatcher/Firmware.antt =====
-- The board of the firmware: stm32/project/command/src/dispatcher.c over the five backends of simulate.
-- The backends share the pins, the hardware timers, the SPI peripherals, the kernel and the sensor
-- manager, so each call works on its part of one state.
use hilglebone.Base.{ℕ, List, Bool}
use hilglebone.Base.ErrCode.{ErrCode}
use hilglebone.Gpio.{Gpio}
use hilglebone.HwTimer
use hilglebone.HwTimer.{Timer}
use hilglebone.Manager.{Manager}
use hilglebone.Uart.{Uart}
use hilglebone.Spi
use hilglebone.SpiMaster
use hilglebone.SpiSlave
use hilglebone.I2cSlave.Control.{Driver}
use hilglebone.I2cSensor
use hilglebone.DigitalOut
use hilglebone.DigitalOut.{TimerService}
use hilglebone.Pwm
use hilglebone.Dac
use hilglebone.Dac.{Semaphores}
use hilglebone.SpiSensor
use hilglebone.Dispatcher.{Backend, Board}

-- What the firmware asks of FreeRTOS and of the hardware: the two services, whether pvPortMalloc
-- finds a block, and the interrupts of the SPI peripheral during the first and the second write of a
-- call.
pub record Environment (K T S : Type 0) : Type 0 where
  pub timers : TimerService K T
  pub semaphores : Semaphores K S
  pub heap : K → Bool
  pub first_write : K → List SpiMaster.Event
  pub second_write : K → List SpiMaster.Event

-- The static variables of the backends and of what they share.
pub record Firmware (K T S : Type 0) : Type 0 where
  pub i2c_states : List I2cSensor.Sensor
  pub i2c_driver : Driver
  pub digital_states : List (DigitalOut.Sensor T)
  pub digital_pins : List (List Bool)
  pub pwm_states : List Pwm.Sensor
  pub pwm_pins : List (List Bool)
  pub dac_chips : List (Dac.Chip S)
  pub dac_states : List Dac.Sensor
  pub spi_states : List SpiSensor.Sensor
  pub spi_slots : List Spi.Slot
  pub spi_regs : List Spi.Regs
  pub spi_masters : List SpiMaster.Master
  pub spi_slaves : List SpiSlave.Slave
  pub gpio : Gpio
  pub timers : List Timer
  pub kernel : K
  pub manager : Manager
  pub uart : Uart

module _ {K T S : Type 0} where
  -- The part of each backend, and the state with that part changed.
  abbrev pub i2c_part : Firmware K T S → I2cSensor.World
  i2c_part w = record {
    states = w.i2c_states;
    gpio = w.gpio;
    driver = w.i2c_driver;
    manager = w.manager;
  }

  abbrev pub with_i2c : Firmware K T S → I2cSensor.World → Firmware K T S
  with_i2c w v = record w {
    i2c_states = v.states;
    gpio = v.gpio;
    i2c_driver = v.driver;
    manager = v.manager;
  }

  abbrev pub digital_part : Firmware K T S → DigitalOut.World K T
  digital_part w = record {
    states = w.digital_states;
    pin_owned = w.digital_pins;
    gpio = w.gpio;
    timers = w.timers;
    kernel = w.kernel;
    manager = w.manager;
  }

  abbrev pub with_digital : Firmware K T S → DigitalOut.World K T → Firmware K T S
  with_digital w v = record w {
    digital_states = v.states;
    digital_pins = v.pin_owned;
    gpio = v.gpio;
    timers = v.timers;
    kernel = v.kernel;
    manager = v.manager;
  }

  abbrev pub pwm_part : Firmware K T S → Pwm.World
  pwm_part w = record {
    states = w.pwm_states;
    pin_owned = w.pwm_pins;
    gpio = w.gpio;
    timers = w.timers;
    manager = w.manager;
  }

  abbrev pub with_pwm : Firmware K T S → Pwm.World → Firmware K T S
  with_pwm w v = record w {
    pwm_states = v.states;
    pwm_pins = v.pin_owned;
    gpio = v.gpio;
    timers = v.timers;
    manager = v.manager;
  }

  abbrev pub dac_part : Firmware K T S → Dac.World K S
  dac_part w = record {
    chips = w.dac_chips;
    states = w.dac_states;
    gpio = w.gpio;
    bus = record { slots = w.spi_slots; regs = w.spi_regs; masters = w.spi_masters };
    kernel = w.kernel;
    manager = w.manager;
  }

  abbrev pub with_dac : Firmware K T S → Dac.World K S → Firmware K T S
  with_dac w v = record w {
    dac_chips = v.chips;
    dac_states = v.states;
    gpio = v.gpio;
    spi_slots = v.bus.slots;
    spi_regs = v.bus.regs;
    spi_masters = v.bus.masters;
    kernel = v.kernel;
    manager = v.manager;
  }

  abbrev pub spi_part : Firmware K T S → SpiSensor.World
  spi_part w = record {
    states = w.spi_states;
    gpio = w.gpio;
    bus = record { slots = w.spi_slots; regs = w.spi_regs; slaves = w.spi_slaves };
    manager = w.manager;
  }

  abbrev pub with_spi : Firmware K T S → SpiSensor.World → Firmware K T S
  with_spi w v = record w {
    spi_states = v.states;
    gpio = v.gpio;
    spi_slots = v.bus.slots;
    spi_regs = v.bus.regs;
    spi_slaves = v.bus.slaves;
    manager = v.manager;
  }

-- A backend whose calls work on a part of the state.
unfoldable pub on_part :
    {W : Type 0}
    → {V : Type 0}
    → (part : W → V) (with_part : W → V → W) (init : V → V)
      (setup : W → V → List ℕ → ℕ → ErrCode × ℕ × V)
      (set_output : W → V → ℕ → List ℕ → ℕ → ErrCode × V) (stop : V → ℕ → ErrCode × V)
    → Backend W
on_part part with_part init setup set_output stop = record {
  init = λ w. with_part w (init (part w));
  setup =
      λ w cfg cfg_len. let (err, id, v) = setup w (part w) cfg cfg_len in (err, id, with_part w v);
  set_output = λ w id values values_len.
      let (err, v) = set_output w (part w) id values values_len in (err, with_part w v);
  stop = λ w id. let (err, v) = stop (part w) id in (err, with_part w v);
}

-- The board of the firmware.
unfoldable pub firmware :
    {K : Type 0} → {T : Type 0} → {S : Type 0} → Environment K T S → Board (Firmware K T S)
firmware env = record {
  i2c =
      on_part i2c_part with_i2c I2cSensor.Calls.init
        (λ w v cfg cfg_len. I2cSensor.Calls.setup v cfg cfg_len (env.heap w.kernel))
        (λ w v. I2cSensor.Calls.set_output v) I2cSensor.Calls.stop;
  digital_out =
      on_part digital_part with_digital DigitalOut.init (λ w v. DigitalOut.Calls.setup v)
        (λ w v. DigitalOut.Calls.set_output env.timers v) (DigitalOut.Calls.stop env.timers);
  pwm =
      on_part pwm_part with_pwm Pwm.init (λ w v. Pwm.Calls.setup v) (λ w v. Pwm.Calls.set_output v)
        Pwm.Calls.stop;
  dac =
      on_part dac_part with_dac Dac.init
        (λ w v cfg cfg_len.
          Dac.Calls.setup env.semaphores v cfg cfg_len (env.first_write w.kernel)
            (env.second_write w.kernel))
        (λ w v id values values_len.
          Dac.Calls.set_output env.semaphores v id values values_len (env.first_write w.kernel))
        (Dac.Calls.stop env.semaphores);
  spi =
      on_part spi_part with_spi SpiSensor.init (λ w v. SpiSensor.Calls.setup v)
        (λ w v. SpiSensor.Calls.set_output v) SpiSensor.Calls.stop;
  timer_init = λ w. record w { timers = HwTimer.init };
  manager = λ w. w.manager;
  with_manager = λ w m. record w { manager = m };
  uart = λ w. w.uart;
  with_uart = λ w u. record w { uart = u };
}

-- ===== src/Dac/Write.antt =====
-- The pins of a DAC, and chip_write. While it waits for the semaphore, the interrupts of the SPI
-- peripheral run; which ones come before the timeout is an argument.
use hilglebone.Base.{ℕ, List, [], ◌∷◌, Bool, true, false, not}
use hilglebone.Base.{if◌then◌else◌, set, Option, none, some}
use hilglebone.Base.ErrCode.{ErrCode, is_success}
use hilglebone.Gpio
use hilglebone.Gpio.{Gpio, Speed, Pull, OutputType, PinId}
use hilglebone.SpiMaster
use hilglebone.SpiMaster.{Bus, Event, master_at, regs_at}
use hilglebone.Dac.{World, Chip, Config, Semaphores, chip_at, set_chip, frame_size, ldac_enabled}

-- One pin of the bus, and one output that starts high.
connect_af : Gpio → PinId → ℕ → Gpio
connect_af g pin af =
    Gpio.configure_af (Gpio.enable_clock g pin.0) pin af Speed.high Pull.none OutputType.push_pull

connect_output : Gpio → PinId → Gpio
connect_output g pin =
    Gpio.configure_output (Gpio.enable_clock g pin.0) pin OutputType.push_pull Speed.high Pull.none
      true

-- The pins of a new chip, and the pins released.
unfoldable pub connect_pins : Gpio → Config → Gpio
unfolding connect_af connect_output
connect_pins g c =
    let three = connect_output (connect_af (connect_af g c.mosi c.mosi_af) c.sck c.sck_af) c.cs in
    if ldac_enabled c then connect_output three c.ldac else three

unfoldable pub release_pins : {H : Type 0} → Gpio → Chip H → Gpio
release_pins g chip =
    let three =
      Gpio.reset_to_defaults
        (Gpio.reset_to_defaults (Gpio.reset_to_defaults g chip.mosi_pin) chip.sck_pin)
        chip.cs_pin in
    if chip.ldac_enabled then Gpio.reset_to_defaults three chip.ldac_pin else three

module _ {K H : Type 0} (service : Semaphores K H) where
  -- `xSemaphoreGiveFromISR(chip->tx_done, …)`
  unfoldable pub give : K → Option H → K
  give k none = k
  give k (some h) = service.give k h

  -- `spi_done_callback`
  unfoldable pub spi_done_callback : World K H → Chip H → World K H
  unfolding give
  spi_done_callback w chip =
      let g = Gpio.set_high w.gpio chip.cs_pin in
      record w {
        gpio =
            if chip.ldac_enabled
            then Gpio.set_high (Gpio.set_low g chip.ldac_pin) chip.ldac_pin
            else g;
        kernel = give w.kernel chip.tx_done;
      }

  -- One interrupt of the peripheral of a chip.
  unfoldable pub serve : World K H → Chip H → Event → World K H
  unfolding spi_done_callback
  serve w chip e =
      let o =
        SpiMaster.isr (master_at w.bus chip.periph) (regs_at w.bus chip.periph) chip.tx_buf e in
      let w' = record w {
        bus = record w.bus {
          masters = set w.bus.masters chip.periph o.master;
          regs = set w.bus.regs chip.periph o.regs;
        };
      } in
      if o.called then spi_done_callback w' chip else w'

  unfoldable pub serve_all : World K H → Chip H → List Event → World K H
  unfolding serve
  serve_all w chip [] = w
  serve_all w chip (e ∷ rest) = serve_all (serve w chip e) chip rest

  -- `xSemaphoreTake(chip->tx_done, …)`
  unfoldable pub take_done : K → Option H → Bool × K
  take_done k none = (false, k)
  take_done k (some h) = service.take k h

  -- `chip_write`
  unfoldable pub chip_write : World K H → Chip H → List Event → ErrCode × World K H
  unfolding serve_all take_done
  chip_write w chip interrupts =
      let low = record w { gpio = Gpio.set_low w.gpio chip.cs_pin } in
      let (err, bus) = SpiMaster.write low.bus chip.periph frame_size in
      let waited = serve_all (record low { bus = bus }) chip interrupts in
      let (taken, k) = take_done waited.kernel chip.tx_done in
      if not (is_success err)
      then (ErrCode.internal, record low { gpio = Gpio.set_high low.gpio chip.cs_pin })
      else (if taken then ErrCode.success else ErrCode.internal, record waited { kernel = k })

  -- `vSemaphoreDelete`
  unfoldable pub delete : K → Option H → K
  delete k none = k
  delete k (some h) = service.delete k h

  -- `chip_teardown` of the chip at `p`
  unfoldable pub chip_teardown : World K H → ℕ → World K H
  unfolding release_pins delete
  chip_teardown w p =
      let chip = chip_at w p in
      set_chip
        (record w {
          bus = (SpiMaster.deinit w.bus chip.periph).1;
          kernel = delete w.kernel chip.tx_done;
          gpio = release_pins w.gpio chip;
        })
        p (record chip { initialized = false })

-- ===== src/Lib.antt =====
-- HILglebone: the firmware of the STM32 real-time engine (stm32/project), which simulates sensors
-- for a device under test on behalf of a BeagleBone that commands it over a UART.
--
-- Bytes come in through the UART interrupt (drivers/uart), the protocol task feeds them to the frame
-- parser (protocol/src/protocol_parser.c), complete frames go to the dispatcher (command), which
-- calls a backend (simulate) and answers with an RSP_ACK that the encoder (protocol) pushes into
-- the UART's TX ring.
--
-- The files and what they model, with paths below stm32/project:
--   Base          C arrays, machine words, bit operations; Base/ErrCode is shared/inc/err_codes.h,
--                 Base/Bytes shared/inc/helpers.h
--   Protocol      protocol: Proto is protocol.h, Crc is crc16.c (`crc16_ccitt_update`;
--                 Crc/Remainder is about division of polynomials), Parser is
--                 protocol_parser.c (`feed` is protocol_parser_feed, with a function for each case
--                 of its switch; `feed_all` is the loop of task_protocol in app/src/app_init.c),
--                 Encoder is protocol_encoder.c (`build_frame`, `push_frame`, `send_ack`,
--                 `send_error`); Wire is the frame format as docs/protocol gives it
--   Ring, Uart    drivers/uart/src/uart.c (`rx_pop`, `tx_push`, `irq_handler`)
--   Manager       command/src/sensor_manager.c (`register`, `lookup`, `release`)
--   HwTimer       drivers/timer/src/hw_timer.c: Pulse (`pulse_acquire`, `pulse_release`, `pulse_start`,
--                 `handle_pulse_isr`), Pwm (`pwm_acquire`, `pwm_release`), `compute_psc_arr`
--   Gpio          drivers/gpio/src/gpio.c
--   Pwm           simulate/pwm/src/pwm_sensor.c (`setup`, `set_output`, `stop` in Pwm/Calls)
--   I2cSlave      drivers/i2c_slave/src/i2c_slave.c: the interrupts (`ev_isr`, `er_isr`,
--                 `regmap_read`, `regmap_write`); Control has `cfg_valid`, `init` and `deinit`
--   I2cSensor     simulate/i2c/src/i2c_sensor.c: `validate_cfg` and the slots; Calls has `setup`,
--                 `set_output` and `stop`
--   DigitalOut    simulate/digital_out/src/digital_out_sensor.c: `validate_cfg`,
--                 `revert_to_idle_level`; Calls has `setup`, `set_output` and `stop`
--   Spi           drivers/spi/src/spi.c: who owns a peripheral, and its registers
--   SpiMaster     drivers/spi_master/src/spi_master.c (`compute_br`, `isr`, `init`, `write`)
--   SpiSlave      drivers/spi_slave/src/spi_slave.c (`isr`, `init`, `set_tx`)
--   SpiSensor     simulate/spi_slave/src/spi_slave_sensor.c (`setup`, `set_output`, `stop` in Calls)
--   Dac           simulate/dac/src/dac_sensor.c: `build_frame`; Write has `chip_write`, Calls the
--                 calls
--   Dispatcher    command/src/dispatcher.c: the handlers over a record of the five backends
--                 (`Board`), whose laws Laws states; Stream has the loop of task_protocol that
--                 pops bytes, feeds the parser and calls the dispatcher; Firmware is the board of
--                 the modelled backends over one shared state, and Lawful is about its laws; what
--                 a backend does to the sensor table is in its Enroll, over Manager/Enroll
--   Tests         runs and instances at concrete inputs
--
-- A function that changes static variables takes them as a record and returns the new record beside
-- its result. Words are natural numbers with the wrap of their width written out. Loops over arrays
-- are recursions on the list, counted loops on the rounds left; no fuel is needed.
--
-- Registers are modelled where their contents matter to the program: the fields of the timers, their
-- channels and the pins that it sets. A mask with a bit for each pin is a list of Booleans.
--
-- What the code does not decide itself is an argument: the software timers and the semaphores of
-- FreeRTOS are records of calls on a kernel state, the result of pvPortMalloc is a Boolean, and the
-- interrupts that arrive while chip_write waits are a list. A loop over a static array ends with the array; `compute_br` has eight rounds, the
-- number of its divider settings.
--
-- The hardware enters as steps: an interrupt handler finds the flags of its event, and the update event
-- of a timer (HwTimer/Steps) raises its flag and stops a counter in one-shot mode.
--
-- Not modelled: other writes of configuration registers, FreeRTOS itself, the Python orchestrator and
-- the Go server, which are other programs at the other end of the wire.
pub mod Base
pub mod Protocol
pub mod Ring
pub mod Uart
pub mod Manager
pub mod HwTimer
pub mod Gpio
pub mod Pwm
pub mod I2cSlave
pub mod Spi
pub mod I2cSensor
pub mod SpiMaster
pub mod SpiSlave
pub mod SpiSensor
pub mod Dac
pub mod DigitalOut
pub mod Dispatcher
mod Tests

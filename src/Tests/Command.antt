-- ===== src/Tests/Command.antt =====
-- Instances for stm32/project/command/src/dispatcher.c, on the board of the firmware with a kernel that
-- counts its timers and semaphores.
use hilglebone.Base.{ℕ, ◌+◌, List, [], ◌∷◌, refl, arith, true, false, some, replicate}
use hilglebone.Gpio.{gpio_reset_state}
use hilglebone.HwTimer
use hilglebone.Manager
use hilglebone.Manager.Laws.{init-IsManager}
use hilglebone.Protocol.Parser.{ParsedFrame, zeroed}
use hilglebone.Protocol.Parser.Stream.{Message, sent, stream_bytes}
use hilglebone.Protocol.Proto
use hilglebone.Uart.{initial}
use hilglebone.Uart.Fifo.{IsUart}
use hilglebone.Spi
use hilglebone.SpiMaster
use hilglebone.SpiSlave
use hilglebone.SpiSensor
use hilglebone.I2cSlave.Control
use hilglebone.I2cSensor
use hilglebone.DigitalOut
use hilglebone.Pwm
use hilglebone.Dac
use hilglebone.Dispatcher.{handle, id_digital_out}
use hilglebone.Dispatcher.Firmware.{Environment, Firmware, firmware}
use hilglebone.Dispatcher.Lawful.{firmware-IsBoard}
use hilglebone.Dispatcher.Outcome.{Handled}
use hilglebone.Dispatcher.Answers.{handle-Handled}
use hilglebone.Dispatcher.Stream.{Replies, task_loop, task_loop-Replies}

-- A kernel whose state is the number of the next handle; every block is granted and every transfer
-- runs to its end.
abbrev env : Environment ℕ ℕ ℕ
env = record {
  timers = record {
    create = λ k ticks id. (some k, k + 1);
    stop = λ k h. k;
    delete = λ k h. k;
    change_period = λ k h ticks. k;
    start = λ k h. (true, k);
    ms_to_ticks = λ ms. ms;
  };
  semaphores = record {
    create = λ k. (some k, k + 1);
    give = λ k h. k;
    take = λ k h. (true, k);
    delete = λ k h. k;
  };
  heap = λ k. true;
  first_write = λ k. [];
  second_write = λ k. [];
}

abbrev start : Firmware ℕ ℕ ℕ
start = record {
  i2c_states = replicate 3 I2cSensor.unused;
  i2c_driver = record {
    slaves = replicate 3 Control.slave_reset;
    regs = replicate 3 Control.regs_reset;
  };
  digital_states = replicate 8 DigitalOut.unused;
  digital_pins = replicate 6 (replicate 16 false);
  pwm_states = replicate Pwm.slot_pool_size Pwm.unused;
  pwm_pins = replicate 6 (replicate 16 false);
  dac_chips = replicate 2 Dac.chip_reset;
  dac_states = replicate 16 Dac.unused;
  spi_states = replicate 2 SpiSensor.unused;
  spi_slots = replicate 2 Spi.slot_reset;
  spi_regs = replicate 2 Spi.regs_reset;
  spi_masters = replicate 2 SpiMaster.master_reset;
  spi_slaves = replicate 2 SpiSlave.slave_reset;
  gpio = gpio_reset_state;
  timers = HwTimer.init;
  kernel = 0;
  manager = Manager.init;
  uart = initial;
}

initial-IsUart : IsUart initial
initial-IsUart = record {
  rx_ring = record { storage = refl; head_in = omega arith; tail_in = omega arith };
  tx_ring = record { storage = refl; head_in = omega arith; tail_in = omega arith };
}

-- A setup of a digital output on pin 13 of port 2 with a software timer.
abbrev setup_frame : ParsedFrame
setup_frame = record {
  type = Proto.type_cmd_setup_sensor;
  len = 9;
  seq = 9;
  payload = id_digital_out ∷ 2 ∷ 13 ∷ replicate 253 0;
}

handle-Handled_example :
    Handled
      (firmware env)
      start
      Proto.type_cmd_setup_sensor
      9
      (handle (firmware env) start setup_frame)
unfolding firmware
handle-Handled_example =
    handle-Handled (firmware env) (firmware-IsBoard env) start setup_frame initial-IsUart
      (init-IsManager.0)

abbrev segments : List (List ℕ × Message)
segments =
    (1 ∷ [], record { type = Proto.type_cmd_sync; seq = 7; payload = [] })
    ∷ ([], record { type = Proto.type_cmd_stop_sensor; seq = 8; payload = 3 ∷ [] })
    ∷ []

task_loop-Replies_example :
    Replies
      (firmware env)
      (firmware-IsBoard env)
      start
      (task_loop (firmware env) start zeroed (stream_bytes segments (1 ∷ []))).0
      (sent segments)
unfolding firmware
task_loop-Replies_example =
    task_loop-Replies (firmware env) (firmware-IsBoard env) start zeroed segments (1 ∷ []) refl refl
      (omega arith) (omega arith) initial-IsUart (init-IsManager.0) (omega arith)

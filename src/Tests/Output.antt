-- ===== src/Tests/Output.antt =====
-- Runs and instances for stm32/project/simulate/digital_out/src/digital_out_sensor.c, with a kernel
-- that counts the timers that it created.
use hilglebone.Base.{
  ℕ, suc, List, [], ◌∷◌, ◌≡◌, refl, arith, true, false, not, some, get_or, ◌==◌, replicate,
}
use hilglebone.Base.ErrCode.{ErrCode, is_success}
use hilglebone.Gpio.{gpio_reset_state, pin_at}
use hilglebone.HwTimer
use hilglebone.HwTimer.{TimerState, timer_at}
use hilglebone.Manager
use hilglebone.DigitalOut.{
  TimerService, World, unused, sensor_at, config_of, validate_cfg, out_of_range,
  revert_to_idle_level,
}
use hilglebone.DigitalOut.Calls.{
  setup_at, set_output, drive, stop_pulse, software_pulse, start_timer, pulse_ticks,
}
use hilglebone.DigitalOut.Hardware.{setup_at-hardware}
use hilglebone.DigitalOut.Pulse.{IsPin, set_output-revert}

-- A tick is a millisecond and no timer is ever refused.
abbrev service : TimerService ℕ ℕ
service = record {
  create = λ k ticks id. (some k, suc k);
  stop = λ k h. k;
  delete = λ k h. k;
  change_period = λ k h ticks. k;
  start = λ k h. (true, k);
  ms_to_ticks = λ ms. ms;
}

abbrev idle : World ℕ ℕ
idle = record {
  states = replicate 8 unused;
  pin_owned = replicate 6 (replicate 16 false);
  gpio = gpio_reset_state;
  timers = HwTimer.init;
  kernel = 0;
  manager = Manager.init;
}

-- Pin 13 of port 2, low, push-pull, with the timer TIM5.
abbrev hardware_cfg : List ℕ
hardware_cfg = 2 ∷ 13 ∷ 0 ∷ 0 ∷ 0 ∷ 0 ∷ 1 ∷ 3 ∷ []

hardware_cfg-valid : is_success (validate_cfg idle hardware_cfg 8) ≡ true
unfolding validate_cfg out_of_range config_of
hardware_cfg-valid = refl

idle-timers : (HwTimer.is_free (timer_at idle.timers 3).state ≡ true)
unfolding HwTimer.init
idle-timers = refl

setup_at-hardware_example :
    let (err, id, w') = setup_at idle 0 hardware_cfg 8 in
    (err ≡ ErrCode.out_of_resources)
    × ((sensor_at w' 0).in_use ≡ false)
    × ((timer_at w'.timers (config_of hardware_cfg).timer_id).state ≡ TimerState.pulse)
    × ((timer_at w'.timers (config_of hardware_cfg).timer_id).pulse_token ≡ 0)
unfolding config_of HwTimer.init
setup_at-hardware_example =
    setup_at-hardware idle 0 hardware_cfg 8 hardware_cfg-valid refl (omega arith) refl (omega arith)
      refl idle-timers

-- A sensor on pin 13 of port 2 with a software timer.
abbrev live : World ℕ ℕ
live = record idle {
  states = record unused { in_use = true; gpio_port = 2; gpio_pin = (2, 13) } ∷ replicate 7 unused;
}

-- High for 1500 microseconds.
abbrev high_pulse : List ℕ
high_pulse = 1 ∷ 0xDC ∷ 0x05 ∷ 0 ∷ 0 ∷ []

live-accepts : is_success (set_output service live 0 high_pulse 5).0 ≡ true
unfolding set_output drive stop_pulse software_pulse start_timer pulse_ticks
live-accepts = refl

live-IsPin : IsPin live.gpio (sensor_at live 0).gpio_pin
live-IsPin = record { port = omega arith; pin = omega arith }

set_output-revert_example :
    let w' = (set_output service live 0 high_pulse 5).1 in
    let pin = (sensor_at live 0).gpio_pin in
    let level = get_or high_pulse 0 0 == 1 in
    ((pin_at w'.gpio pin).level ≡ level)
    × ((pin_at (revert_to_idle_level w' 0).gpio pin).level ≡ not level)
set_output-revert_example =
    set_output-revert service live 0 high_pulse 5 (omega arith) refl refl live-IsPin refl
      live-accepts

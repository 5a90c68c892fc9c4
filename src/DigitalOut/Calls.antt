-- ===== src/DigitalOut/Calls.antt =====
-- The calls that the dispatcher makes into digital_out_sensor.c.
use hilglebone.Base.{ℕ, ◌+◌, ◌/◌, List, Bool, true, false, not, ◌&&◌}
use hilglebone.Base.{u32, ltb, ◌==◌, if◌then◌else◌, get_or, Option, none, some}
use hilglebone.Base.{read_u32_le}
use hilglebone.Base.ErrCode.{ErrCode, is_success}
use hilglebone.Gpio
use hilglebone.Gpio.{Gpio, PinId, OutputType, Speed, Pull}
use hilglebone.HwTimer.Pulse.{pulse_acquire, pulse_release, pulse_start, pulse_max_us}
use hilglebone.Manager
use hilglebone.Manager.{Manager, id_none}
use hilglebone.DigitalOut.{
  Sensor, World, Config, TimerService, unused, sensor_at, set_sensor, set_owned, alloc_slot,
  drive_level, validate_cfg, config_of, stored, output_type_of, speed_of, pull_of, software,
  hardware, protocol_id, set_output_size,
}

module _ {K H : Type 0} where
  -- `digital_out_sensor_setup` from the registration with the manager on.
  unfoldable pub enroll : World K H → ℕ → ErrCode × ℕ × World K H
  enroll w idx =
      let s = sensor_at w idx in
      let (id, manager) = Manager.register w.manager protocol_id idx in
      let w' = record w { manager = manager } in
      let undone =
        set_owned
          (record w' {
            gpio = Gpio.reset_to_defaults w.gpio s.gpio_pin;
            timers = if s.timer_kind == hardware then pulse_release w.timers idx else w.timers;
          })
          s.gpio_port (s.gpio_pin.1) false in
      if id == id_none
      then (ErrCode.out_of_resources, id_none, set_sensor undone idx unused)
      else (ErrCode.success, id, w')

  -- What `digital_out_sensor_setup` writes between the reservation of the timer and the registration.
  unfoldable pub configure : World K H → ℕ → Config → World K H
  configure w idx c =
      let g = Gpio.enable_clock w.gpio c.port in
      let w₁ = record (set_owned w c.port c.pin true) {
        gpio =
            Gpio.configure_output g (c.port, c.pin) (output_type_of c.output_type)
              (speed_of c.speed) (pull_of c.pull) (not (c.initial_level == 0));
      } in
      set_sensor w₁ idx
        (record (sensor_at w idx) { sw_timer = none; pulse_revert_level = false; in_use = true })

  -- `digital_out_sensor_setup` in the slot that `alloc_slot` found. The test of the reservation is
  -- `!hw_timer_pulse_acquire(…)`, which holds when it succeeded.
  unfoldable pub setup_at : World K H → ℕ → List ℕ → ℕ → ErrCode × ℕ × World K H
  unfolding validate_cfg config_of enroll configure
  setup_at w idx cfg cfg_len =
      let c = config_of cfg in
      let valid = validate_cfg w cfg cfg_len in
      let w₁ = set_sensor w idx (stored (sensor_at w idx) c) in
      let (acquired, timers) = pulse_acquire w.timers c.timer_id idx in
      let w₂ = record w₁ { timers = timers } in
      if not (is_success valid)
      then (valid, id_none, w)
      else (if c.timer_kind == hardware
          then (if is_success acquired
              then (ErrCode.out_of_resources, id_none, w₂)
              else enroll (configure w₂ idx c) idx)
          else enroll (configure w₁ idx c) idx)

  -- `digital_out_sensor_setup`
  unfoldable pub setup : World K H → List ℕ → ℕ → ErrCode × ℕ × World K H
  unfolding setup_at
  setup w cfg cfg_len = elim (alloc_slot w) [
    | none ↦ (ErrCode.out_of_resources, id_none, w)
    | some idx ↦ setup_at w idx cfg cfg_len
  ]

  module _ (service : TimerService K H) where
    -- The ticks of a pulse: `(pulse_us + 999U) / 1000U` milliseconds, at least one tick.
    unfoldable pub pulse_ticks : ℕ → ℕ
    pulse_ticks pulse_us =
        let ticks = service.ms_to_ticks (u32 (pulse_us + 999) / 1000) in
        if ticks == 0 then 1 else ticks

    -- `xTimerStart` on the timer of the sensor.
    unfoldable pub start_timer : World K H → H → ErrCode × World K H
    start_timer w h =
        let (passed, k) = service.start w.kernel h in
        (if passed then ErrCode.success else ErrCode.internal, record w { kernel = k })

    -- The software timer of a pulse: created at the first one, its period changed at the next ones.
    unfoldable pub software_pulse : World K H → ℕ → ℕ → ErrCode × World K H
    unfolding pulse_ticks start_timer
    software_pulse w internal_id pulse_us =
        let s = sensor_at w internal_id in
        let ticks = pulse_ticks pulse_us in
        elim s.sw_timer [
          | some h ↦ start_timer (record w { kernel = service.change_period w.kernel h ticks }) h
          | none ↦
              let (created, k) = service.create w.kernel ticks internal_id in
              let w' = record w { kernel = k } in
              elim created [
                | none ↦ (
                  ErrCode.out_of_resources,
                  set_sensor w' internal_id (record s { sw_timer = none }),
                )
                | some h ↦
                    start_timer (set_sensor w' internal_id (record s { sw_timer = some h })) h
              ]
        ]

    -- The hardware timer of a pulse. The test is `!hw_timer_pulse_start(…)`, which holds when it
    -- succeeded.
    unfoldable pub hardware_pulse : World K H → ℕ → ℕ → ErrCode × World K H
    hardware_pulse w internal_id pulse_us =
        let (err, timers) = pulse_start w.timers internal_id pulse_us in
        (if is_success err then ErrCode.internal else ErrCode.success, record w { timers = timers })

    -- `xTimerStop` before the level changes.
    unfoldable pub stop_pulse : World K H → ℕ → World K H
    stop_pulse w internal_id =
        let s = sensor_at w internal_id in
        elim s.sw_timer [
          | none ↦ w
          | some h ↦
              if s.timer_kind == software then record w { kernel = service.stop w.kernel h } else w
        ]

    -- `digital_out_sensor_set_output` behind its guards.
    unfoldable pub drive : World K H → ℕ → Bool → ℕ → ErrCode × World K H
    unfolding stop_pulse drive_level software_pulse hardware_pulse
    drive w internal_id level pulse_us =
        let w₁ = stop_pulse w internal_id in
        let s = sensor_at w internal_id in
        let w₂ = record w₁ { gpio = drive_level w₁.gpio s.gpio_pin level } in
        let w₃ = set_sensor w₂ internal_id (record s { pulse_revert_level = not level }) in
        if pulse_us == 0
        then (ErrCode.success, w₂)
        else (if s.timer_kind == hardware
            then hardware_pulse w₃ internal_id pulse_us
            else software_pulse w₃ internal_id pulse_us)

    -- `digital_out_sensor_set_output`, for an index within the array
    unfoldable pub set_output : World K H → ℕ → List ℕ → ℕ → ErrCode × World K H
    unfolding drive
    set_output w internal_id values values_len =
        let s = sensor_at w internal_id in
        let level = get_or values 0 0 in
        let pulse_us = read_u32_le values 1 in
        if not s.in_use
        then (ErrCode.invalid_sensor_id, w)
        else (if ltb values_len set_output_size
            then (ErrCode.malformed_payload, w)
            else (if ltb 1 level
                then (ErrCode.invalid_parameter, w)
                else (if s.timer_kind == hardware
                      && ltb (pulse_max_us w.timers internal_id) pulse_us
                    then (ErrCode.invalid_parameter, w)
                    else drive w internal_id (level == 1) pulse_us)))

    -- `xTimerStop` and `xTimerDelete`.
    unfoldable pub delete_timer : World K H → Option H → World K H
    delete_timer w none = w
    delete_timer w (some h) = record w { kernel = service.delete (service.stop w.kernel h) h }

    -- What `digital_out_sensor_stop` does to a sensor in use.
    unfoldable pub detach : World K H → ℕ → Sensor H → World K H
    unfolding delete_timer
    detach w internal_id s =
        let w₁ = delete_timer w s.sw_timer in
        let w₂ = record w₁ {
          timers =
              if s.timer_kind == hardware then pulse_release w₁.timers internal_id else w₁.timers;
          gpio = Gpio.reset_to_defaults w₁.gpio s.gpio_pin;
        } in
        set_sensor (set_owned w₂ s.gpio_port (s.gpio_pin.1) false) internal_id unused

    -- `digital_out_sensor_stop`, for an index within the array
    unfoldable pub stop : World K H → ℕ → ErrCode × World K H
    unfolding detach
    stop w internal_id =
        let s = sensor_at w internal_id in
        if not s.in_use
        then (ErrCode.invalid_sensor_id, w)
        else (ErrCode.success, detach w internal_id s)

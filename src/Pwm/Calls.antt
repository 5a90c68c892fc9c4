-- ===== src/Pwm/Calls.antt =====
-- The three calls that the dispatcher makes into pwm_sensor.c.
use hilglebone.Base.{ℕ, List, true, false, not, ltb, ◌==◌, if◌then◌else◌, Option, some, none}
use hilglebone.Base.{read_u16_le}
use hilglebone.Base.ErrCode.{ErrCode, is_success}
use hilglebone.Gpio.{enable_clock, configure_af, reset_to_defaults, Speed, Pull, OutputType}
use hilglebone.HwTimer.{max_channel}
use hilglebone.HwTimer.Pwm.{pwm_acquire, pwm_release, pwm_arr}
use hilglebone.Manager
use hilglebone.Manager.{id_none}
use hilglebone.Pwm.{
  World, Sensor, Config, config_of, out_of_range, owned, set_owned, sensor_at, set_sensor, on_timer,
  slot_for, unused, compute_ccr, channel_configure, channel_set_ccr, channel_disable, cfg_size,
  set_output_size, duty_max,
}

-- `PROTO_ID_PWM`
abbrev pub protocol_id : ℕ
protocol_id = 0x06

-- What `pwm_sensor_setup` undoes when the manager has no slot.
unfoldable pub undo : World → Config → ℕ → World
undo w c idx =
    let w₁ = on_timer w c.timer (λ e. channel_disable e c.channel) in
    let w₂ = record w₁ { timers = pwm_release w₁.timers c.timer } in
    let w₃ = record w₂ { gpio = reset_to_defaults w₂.gpio (c.port, c.pin) } in
    set_sensor (set_owned w₃ c.port c.pin false) idx unused

-- `pwm_sensor_setup` from the registration with the manager on.
unfoldable pub enroll : World → Config → ℕ → ErrCode × ℕ × World
unfolding undo
enroll w c idx =
    let (id, manager) = Manager.register w.manager protocol_id idx in
    let w' = record w { manager = manager } in
    if id == id_none
    then (ErrCode.out_of_resources, id_none, undo w' c idx)
    else (ErrCode.success, id, w')

-- The sensor that `pwm_sensor_setup` stores.
abbrev pub sensor_of : Config → Sensor
sensor_of c = record {
  in_use = true;
  gpio_port = c.port;
  gpio_pin = (c.port, c.pin);
  timer_id = c.timer;
  channel = c.channel;
}

-- What `pwm_sensor_setup` writes between the acquisition of the timer, which gave `arr`, and the
-- registration.
unfoldable pub configure : World → Config → ℕ → ℕ → World
configure w c idx arr =
    let g = enable_clock w.gpio c.port in
    let w₁ = record w {
      gpio = configure_af g (c.port, c.pin) c.af Speed.high Pull.none OutputType.push_pull;
    } in
    let w₂ = set_owned w₁ c.port c.pin true in
    let w₃ = on_timer w₂ c.timer (λ e. channel_configure e c.channel (compute_ccr arr c.duty)) in
    set_sensor w₃ idx (sensor_of c)

-- The variable `arr` behind the acquisition.
abbrev pub written : Option ℕ → ℕ
written none = 0
written (some arr) = arr

-- `pwm_sensor_setup` behind its guards. `arr` is set whenever the acquisition succeeds.
unfoldable pub attach : World → Config → ℕ → ErrCode × ℕ × World
unfolding enroll configure
attach w c idx =
    let (err, out_arr, timers) = pwm_acquire w.timers c.timer c.freq_hz in
    let w' = record w { timers = timers } in
    if not (is_success err)
    then (err, id_none, w')
    else enroll (configure w' c idx (written out_arr)) c idx

-- `pwm_sensor_setup` with the payload read.
unfoldable pub setup_config : World → Config → ErrCode × ℕ × World
unfolding attach
setup_config w c =
    if out_of_range c
    then (ErrCode.invalid_parameter, id_none, w)
    else (if ltb (max_channel w.timers c.timer) c.channel
        then (ErrCode.invalid_parameter, id_none, w)
        else (if owned w c.port c.pin
            then (ErrCode.pin_conflict, id_none, w)
            else (if (sensor_at w (slot_for c.timer c.channel)).in_use
                then (ErrCode.pwm_channel_in_use, id_none, w)
                else attach w c (slot_for c.timer c.channel))))

-- `pwm_sensor_setup`: the status, `*out_sensor_id` and the new state.
unfoldable pub setup : World → List ℕ → ℕ → ErrCode × ℕ × World
unfolding setup_config
setup w cfg cfg_len =
    if ltb cfg_len cfg_size
    then (ErrCode.malformed_payload, id_none, w)
    else setup_config w (config_of cfg)

-- `pwm_sensor_set_output`
unfoldable pub set_output : World → ℕ → List ℕ → ℕ → ErrCode × World
set_output w internal_id values values_len =
    let s = sensor_at w internal_id in
    let duty = read_u16_le values 0 in
    let ccr = compute_ccr (pwm_arr w.timers s.timer_id) duty in
    if not s.in_use
    then (ErrCode.invalid_sensor_id, w)
    else (if ltb values_len set_output_size
        then (ErrCode.malformed_payload, w)
        else (if ltb duty_max duty
            then (ErrCode.invalid_parameter, w)
            else (ErrCode.success, on_timer w s.timer_id (λ e. channel_set_ccr e s.channel ccr))))

-- What `pwm_sensor_stop` does to a sensor in use.
unfoldable pub detach : World → ℕ → Sensor → World
detach w internal_id s =
    let w₁ = on_timer w s.timer_id (λ e. channel_disable e s.channel) in
    let w₂ = record w₁ { timers = pwm_release w₁.timers s.timer_id } in
    let w₃ = record w₂ { gpio = reset_to_defaults w₂.gpio s.gpio_pin } in
    set_sensor (set_owned w₃ s.gpio_port (s.gpio_pin.1) false) internal_id unused

-- `pwm_sensor_stop`
unfoldable pub stop : World → ℕ → ErrCode × World
unfolding detach
stop w internal_id =
    let s = sensor_at w internal_id in
    if not s.in_use
    then (ErrCode.invalid_sensor_id, w)
    else (ErrCode.success, detach w internal_id s)

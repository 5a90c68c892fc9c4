-- ===== src/DigitalOut/Pulse.antt =====
-- Pulses of a digital output with a software timer, and what the timer's callback undoes.
use mathlib.Core.Path.{subst}
use hilglebone.Base.{
  ℕ, ◌<◌, List, ◌≡◌, refl, sym, ap, ◌∙◌, arith, inl, inr, Bool, true, false, not, ◌&&◌, Bool-cases,
  Option, Option-cases, none, some, ltb, leb, ◌==◌, get_or, set, length, get_or-set_self,
  length-set,
}
use hilglebone.Base.{read_u32_le}
use hilglebone.Base.ErrCode.{ErrCode, is_success}
use hilglebone.Base.Guards.{not_success}
use hilglebone.Gpio
use hilglebone.Gpio.{Gpio, PinId, Pin, Port, pin_at, port_reset, pin_reset, set_pin}
use hilglebone.HwTimer.Pulse.{pulse_max_us}
use hilglebone.DigitalOut.{
  World, Sensor, TimerService, sensor_at, set_sensor, unused, drive_level, revert_to_idle_level,
  software, hardware, set_output_size, max_count,
}
use hilglebone.DigitalOut.Calls.{
  set_output, drive, stop_pulse, software_pulse, start_timer, pulse_ticks,
}

-- A pin that exists.
pub record IsPin (g : Gpio) (id : PinId) : Type 0 where
  pub port : id.0 < length g
  pub pin : id.1 < length (get_or g id.0 port_reset).pins

set_pin-at : (g : Gpio) (id : PinId) (p : Pin) → IsPin g id → pin_at (set_pin g id p) id ≡ p
set_pin-at g (port, pin) p v =
    let q : Port = record (get_or g port port_reset) {
      pins = set (get_or g port port_reset).pins pin p;
    } in
    ap (λ (x : Port). get_or x.pins pin pin_reset) (get_or-set_self g port q port_reset v.port)
    ∙ get_or-set_self (get_or g port port_reset).pins pin p pin_reset v.pin

set_pin-IsPin : (g : Gpio) (id : PinId) (p : Pin) → IsPin g id → IsPin (set_pin g id p) id
set_pin-IsPin g (port, pin) p v =
    let q : Port = record (get_or g port port_reset) {
      pins = set (get_or g port port_reset).pins pin p;
    } in
    let e : length (get_or (set g port q) port port_reset).pins
        ≡ length (get_or g port port_reset).pins =
      ap (λ (x : Port). length x.pins) (get_or-set_self g port q port_reset v.port)
      ∙ length-set (get_or g port port_reset).pins pin p in
    record { port = omega (arith, length-set g port q, v.port); pin = omega (arith, e, v.pin) }

drive_level-level :
    (g : Gpio) (id : PinId) (level : Bool)
    → IsPin g id
    → (pin_at (drive_level g id level) id).level ≡ level
unfolding drive_level Gpio.set_high Gpio.set_low
drive_level-level g id true v = ap (λ p. p.level) (set_pin-at g id _ v)
drive_level-level g id false v = ap (λ p. p.level) (set_pin-at g id _ v)

drive_level-IsPin :
    (g : Gpio) (id : PinId) (level : Bool) → IsPin g id → IsPin (drive_level g id level) id
unfolding drive_level Gpio.set_high Gpio.set_low
drive_level-IsPin g id true v = set_pin-IsPin g id _ v
drive_level-IsPin g id false v = set_pin-IsPin g id _ v

module _ {K H : Type 0} where
  -- What an accepted software pulse leaves of the sensor and the pins.
  record Pulsed (w : World K H) (id : ℕ) (level : Bool) (w' : World K H) : Type 0 where
    gpio : w'.gpio ≡ drive_level w.gpio (sensor_at w id).gpio_pin level
    in_use : (sensor_at w' id).in_use ≡ true
    pin : (sensor_at w' id).gpio_pin ≡ (sensor_at w id).gpio_pin
    revert : (sensor_at w' id).pulse_revert_level ≡ not level

  module _ (service : TimerService K H) where
    stop_pulse-kernel :
        (w : World K H) (id : ℕ) → (k : K) × (stop_pulse service w id ≡ record w { kernel = k })
    unfolding stop_pulse
    stop_pulse-kernel w id = elim (Option-cases (sensor_at w id).sw_timer) [
      | inl e ↦ (w.kernel, rw (stop_pulse, e) refl)
      | inr (h, e) ↦ elim (Bool-cases ((sensor_at w id).timer_kind == software)) [
        | inl t ↦ (service.stop w.kernel h, rw (stop_pulse, e, t) refl)
        | inr t ↦ (w.kernel, rw (stop_pulse, e, t) refl)
      ]
    ]

    -- A software pulse changes the kernel, and of the sensor its timer only.
    record Timed (w w' : World K H) (id : ℕ) : Type 0 where
      gpio : w'.gpio ≡ w.gpio
      timer : Option H
      sensor : sensor_at w' id ≡ record (sensor_at w id) { sw_timer = timer }

    same-Timed :
        (w w' : World K H) (id : ℕ) → w'.gpio ≡ w.gpio → w'.states ≡ w.states → Timed w w' id
    same-Timed w w' id g e = record {
      gpio = g;
      timer = (sensor_at w id).sw_timer;
      sensor = ap (λ xs. get_or xs id unused) e;
    }

    set-Timed :
        (w w' : World K H) (id : ℕ) (timer : Option H)
        → id < length w.states
        → w'.gpio ≡ w.gpio
        → w'.states ≡ set w.states id (record (sensor_at w id) { sw_timer = timer })
        → Timed w w' id
    set-Timed w w' id timer h g e = record {
      gpio = g;
      timer = timer;
      sensor = ap (λ xs. get_or xs id unused) e ∙ get_or-set_self w.states id _ unused h;
    }

    software_pulse-Timed :
        (w : World K H) (id pulse_us : ℕ)
        → id < length w.states
        → Timed w (software_pulse service w id pulse_us).1 id
    unfolding software_pulse start_timer
    software_pulse-Timed w id pulse_us h = elim (Option-cases (sensor_at w id).sw_timer) [
      | inr (old, e) ↦ rw (software_pulse, e) (same-Timed w _ id refl refl)
      | inl e ↦
          let ticks = pulse_ticks service pulse_us in
          elim (Option-cases (service.create w.kernel ticks id).0) [
            | inl missing ↦ rw (software_pulse, e, missing) (set-Timed w _ id none h refl refl)
            | inr (new, got) ↦ rw (software_pulse, e, got) (set-Timed w _ id (some new) h refl refl)
          ]
    ]

    drive-Pulsed :
        (w : World K H) (id : ℕ) (level : Bool) (pulse_us : ℕ)
        → id < length w.states
        → (sensor_at w id).in_use ≡ true
        → (sensor_at w id).timer_kind ≡ software
        → (pulse_us == 0) ≡ false
        → Pulsed w id level (drive service w id level pulse_us).1
    unfolding drive
    drive-Pulsed w id level pulse_us h live kind positive =
        let s = sensor_at w id in
        let (k, e) = stop_pulse-kernel w id in
        let not_hw : (s.timer_kind == hardware) ≡ false = ground arith in
        let s' : Sensor H = record s { pulse_revert_level = not level } in
        let w₃ : World K H =
          set_sensor (record w { kernel = k; gpio = drive_level w.gpio s.gpio_pin level }) id s' in
        let same : drive service w id level pulse_us ≡ software_pulse service w₃ id pulse_us =
          rw (drive, e, positive, not_hw) refl in
        let T = software_pulse-Timed w₃ id pulse_us (omega (arith, h, length-set w.states id s')) in
        let here : sensor_at w₃ id ≡ s' = get_or-set_self w.states id s' unused h in
        subst (λ o. Pulsed w id level o.1) (sym same)
          (record {
            gpio = T.gpio;
            in_use = ap (λ x. x.in_use) T.sensor ∙ ap (λ x. x.in_use) here ∙ live;
            pin = ap (λ x. x.gpio_pin) T.sensor ∙ ap (λ x. x.gpio_pin) here;
            revert = ap (λ x. x.pulse_revert_level) T.sensor ∙ ap (λ x. x.pulse_revert_level) here;
          })

    revert-level :
        (w w' : World K H) (id : ℕ) (level : Bool)
        → id < max_count
        → IsPin w.gpio (sensor_at w id).gpio_pin
        → Pulsed w id level w'
        → (pin_at (revert_to_idle_level w' id).gpio (sensor_at w id).gpio_pin).level ≡ not level
    unfolding revert_to_idle_level
    revert-level w w' id level h v P =
        let pin = (sensor_at w id).gpio_pin in
        let bound : leb max_count id ≡ false = ground arith in
        let still : IsPin w'.gpio pin =
          subst (λ g. IsPin g pin) (sym P.gpio) (drive_level-IsPin w.gpio pin level v) in
        let reverted : revert_to_idle_level w' id
            ≡ record w' { gpio = drive_level w'.gpio pin (not level) } =
          rw (revert_to_idle_level, bound, P.in_use, P.pin, P.revert) refl in
        ap (λ x. (pin_at x.gpio pin).level) reverted
        ∙ drive_level-level w'.gpio pin (not level) still

    accepted-drive :
        (w : World K H) (id : ℕ) (values : List ℕ) (values_len : ℕ)
        → is_success (set_output service w id values values_len).0 ≡ true
        → ((sensor_at w id).in_use ≡ true)
          × (set_output service w id values values_len
              ≡ drive service w id (get_or values 0 0 == 1) (read_u32_le values 1))
    unfolding set_output
    accepted-drive w id values values_len ok =
        let s = sensor_at w id in
        let out = set_output service w id values values_len in
        elim (Bool-cases s.in_use) [
          | inr a ↦
              absurd (not_success out.0 ErrCode.invalid_sensor_id (rw (set_output, a) refl) refl ok)
          | inl live ↦ elim (Bool-cases (ltb values_len set_output_size)) [
            | inl a ↦ absurd (
                not_success out.0 ErrCode.malformed_payload (rw (set_output, live, a) refl) refl ok)
            | inr b ↦ elim (Bool-cases (ltb 1 (get_or values 0 0))) [
              | inl a ↦ absurd (
                  not_success out.0 ErrCode.invalid_parameter (rw (set_output, live, b, a) refl)
                    refl ok)
              | inr c ↦
                  elim (Bool-cases (
                    s.timer_kind == hardware
                    && ltb (pulse_max_us w.timers id) (read_u32_le values 1))) [
                      | inl a ↦ absurd (
                          not_success out.0 ErrCode.invalid_parameter
                            (rw (set_output, live, b, c, a) refl) refl ok)
                      | inr d ↦ (live, rw (set_output, live, b, c, d) refl)
                    ]
            ]
          ]
        ]

    -- With eight sensor states, an accepted pulse of nonzero length of a sensor with a software timer,
    -- whose index is below eight and whose pin exists, drives the pin to the commanded level, and when
    -- the timer's callback runs next, it drives the pin to the other level.
    pub set_output-revert :
        (w : World K H) (id : ℕ) (values : List ℕ) (values_len : ℕ)
        → id < max_count
        → length w.states ≡ max_count
        → (sensor_at w id).timer_kind ≡ software
        → IsPin w.gpio (sensor_at w id).gpio_pin
        → (read_u32_le values 1 == 0) ≡ false
        → is_success (set_output service w id values values_len).0 ≡ true
        → (let w' = (set_output service w id values values_len).1 in
            let pin = (sensor_at w id).gpio_pin in
            let level = get_or values 0 0 == 1 in
            ((pin_at w'.gpio pin).level ≡ level)
            × ((pin_at (revert_to_idle_level w' id).gpio pin).level ≡ not level))
    set_output-revert w id values values_len h size kind v positive ok =
        let (live, same) = accepted-drive w id values values_len ok in
        let level = get_or values 0 0 == 1 in
        let pin = (sensor_at w id).gpio_pin in
        let P =
          drive-Pulsed w id level (read_u32_le values 1) (omega (arith, h, size)) live kind
            positive in
        subst
          (λ (o : ErrCode × World K H).
            ((pin_at o.1.gpio pin).level ≡ level)
            × ((pin_at (revert_to_idle_level o.1 id).gpio pin).level ≡ not level))
          (sym same)
          (
            ap (λ g. (pin_at g pin).level) P.gpio ∙ drive_level-level w.gpio pin level v,
            revert-level w _ id level h v P,
          )

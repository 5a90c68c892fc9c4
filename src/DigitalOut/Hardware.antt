-- ===== src/DigitalOut/Hardware.antt =====
-- What becomes of the hardware timer that a setup of a digital output names.
use mathlib.Core.Path.{subst}
use hilglebone.Base.{
  ℕ, ◌<◌, List, ◌≡◌, refl, sym, ap, ◌∙◌, arith, true, false, leb, ◌==◌, ==_iff, if◌then◌else◌, set,
  length, get_or-set_self,
}
use hilglebone.Base.ErrCode.{ErrCode, is_success}
use hilglebone.HwTimer.{Timer, TimerState, timer_at, timer_count, is_free}
use hilglebone.HwTimer.Pulse.{pulse_acquire, pulse_reserve}
use hilglebone.Manager.{id_none}
use hilglebone.DigitalOut.{
  World, sensor_at, set_sensor, unused, validate_cfg, config_of, stored, hardware,
}
use hilglebone.DigitalOut.Calls.{setup_at, enroll, configure}

module _ {K H : Type 0} where
  -- What such a setup leaves.
  abbrev reserved : World K H → ℕ → List ℕ → World K H
  reserved w idx cfg =
      let c = config_of cfg in
      record (set_sensor w idx (stored (sensor_at w idx) c)) {
        timers = set w.timers c.timer_id (pulse_reserve (timer_at w.timers c.timer_id) idx);
      }

  setup_at-reserved :
      (w : World K H) (idx : ℕ) (cfg : List ℕ) (cfg_len : ℕ)
      → is_success (validate_cfg w cfg cfg_len) ≡ true
      → (config_of cfg).timer_kind ≡ hardware
      → (config_of cfg).timer_id < timer_count
      → is_free (timer_at w.timers (config_of cfg).timer_id).state ≡ true
      → setup_at w idx cfg cfg_len ≡ (ErrCode.out_of_resources, id_none, reserved w idx cfg)
  unfolding setup_at pulse_acquire
  setup_at-reserved w idx cfg cfg_len valid kind exists free =
      let c = config_of cfg in
      let t : leb timer_count c.timer_id ≡ false = ground arith in
      let h : (c.timer_kind == hardware) ≡ true = (==_iff c.timer_kind hardware).1 kind in
      let acquired : pulse_acquire w.timers c.timer_id idx ≡ (
        ErrCode.success,
        set w.timers c.timer_id (pulse_reserve (timer_at w.timers c.timer_id) idx),
      ) =
        rw (pulse_acquire, t, free) refl in
      let w₁ = set_sensor w idx (stored (sensor_at w idx) c) in
      let chosen : setup_at w idx cfg cfg_len ≡ (
          let (acquired, timers) = pulse_acquire w.timers c.timer_id idx in
          if is_success acquired
          then (ErrCode.out_of_resources, id_none, record w₁ { timers = timers })
          else enroll (configure (record w₁ { timers = timers }) idx c) idx) =
        rw (setup_at, valid, h) refl in
      chosen
      ∙ ap
          (λ (o : ErrCode × List Timer).
            if is_success o.0
            then (ErrCode.out_of_resources, id_none, record w₁ { timers = o.1 })
            else enroll (configure (record w₁ { timers = o.1 }) idx c) idx)
          acquired

  -- With seven timers and a slot of the array that is not in use, a setup with a valid configuration
  -- that names a hardware timer that exists and is free never succeeds: it reports
  -- ERR_OUT_OF_RESOURCES, the sensor stays unused, and the timer stays reserved for it.
  pub setup_at-hardware :
      (w : World K H) (idx : ℕ) (cfg : List ℕ) (cfg_len : ℕ)
      → is_success (validate_cfg w cfg cfg_len) ≡ true
      → (config_of cfg).timer_kind ≡ hardware
      → (config_of cfg).timer_id < timer_count
      → length w.timers ≡ timer_count
      → idx < length w.states
      → (sensor_at w idx).in_use ≡ false
      → is_free (timer_at w.timers (config_of cfg).timer_id).state ≡ true
      → (let (err, id, w') = setup_at w idx cfg cfg_len in
          (err ≡ ErrCode.out_of_resources)
          × ((sensor_at w' idx).in_use ≡ false)
          × ((timer_at w'.timers (config_of cfg).timer_id).state ≡ TimerState.pulse)
          × ((timer_at w'.timers (config_of cfg).timer_id).pulse_token ≡ idx))
  unfolding setup_at pulse_acquire pulse_reserve
  setup_at-hardware w idx cfg cfg_len valid kind exists size slot idle free =
      let c = config_of cfg in
      let s = stored (sensor_at w idx) c in
      let t : Timer = pulse_reserve (timer_at w.timers c.timer_id) idx in
      let timer : timer_at (reserved w idx cfg).timers c.timer_id ≡ t =
        get_or-set_self w.timers c.timer_id t _ (omega (arith, exists, size)) in
      let sensor : sensor_at (reserved w idx cfg) idx ≡ s =
        get_or-set_self w.states idx s unused slot in
      subst
        (λ (o : ErrCode × ℕ × World K H).
          (o.0 ≡ ErrCode.out_of_resources)
          × ((sensor_at o.2 idx).in_use ≡ false)
          × ((timer_at o.2.timers c.timer_id).state ≡ TimerState.pulse)
          × ((timer_at o.2.timers c.timer_id).pulse_token ≡ idx))
        (sym (setup_at-reserved w idx cfg cfg_len valid kind exists free))
        (
          refl,
          ap (λ x. x.in_use) sensor ∙ idle,
          ap (λ x. x.state) timer,
          ap (λ x. x.pulse_token) timer,
        )

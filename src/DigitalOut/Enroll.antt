-- ===== src/DigitalOut/Enroll.antt =====
-- What the calls of stm32/project/simulate/digital_out/src/digital_out_sensor.c do to the sensor table.
use hilglebone.Base.{
  ℕ, List, Bool, ◌≡◌, refl, inl, inr, Option, none, some, Bool-cases, Option-cases, ◌==◌,
}
use hilglebone.Manager.{Manager}
use hilglebone.Manager.Table.{IsManager}
use hilglebone.Manager.Enroll.{IsEnrollment, enrollment, IsKept, keeping}
use hilglebone.DigitalOut.{World, TimerService, sensor_at, alloc_slot, software, protocol_id}
use hilglebone.DigitalOut.Calls
use hilglebone.DigitalOut.Calls.{
  configure, setup_at, setup, start_timer, software_pulse, hardware_pulse, stop_pulse, drive,
  set_output, delete_timer, detach, stop,
}

module _ {K H : Type 0} where
  setup_at-IsEnrollment :
      (w : World K H) (idx : ℕ) (cfg : List ℕ) (cfg_len : ℕ)
      → IsManager w.manager
      → IsEnrollment (λ u. u.manager) protocol_id w.manager (setup_at w idx cfg cfg_len)
  unfolding setup_at Calls.enroll configure
  setup_at-IsEnrollment w idx cfg cfg_len m = search enrollment depth 8

  pub setup-IsEnrollment :
      (w : World K H) (cfg : List ℕ) (cfg_len : ℕ)
      → IsManager w.manager
      → IsEnrollment (λ u. u.manager) protocol_id w.manager (setup w cfg cfg_len)
  unfolding setup
  setup-IsEnrollment w cfg cfg_len m = elim (Option-cases (alloc_slot w)) [
    | inl full ↦ rw (full, setup) (search enrollment)
    | inr (idx, free) ↦ rw (free, setup) (setup_at-IsEnrollment w idx cfg cfg_len m)
  ]

  module _ (service : TimerService K H) where
    software_pulse-IsKept :
        (w : World K H) (id pulse_us : ℕ) (m : Manager)
        → w.manager ≡ m
        → IsKept (λ u. u.manager) m (software_pulse service w id pulse_us)
    unfolding software_pulse start_timer
    software_pulse-IsKept w id pulse_us m e = elim (Option-cases ((sensor_at w id).sw_timer)) [
      | inr (h, there) ↦ rw (there, software_pulse) (search keeping)
      | inl missing ↦
          elim (Option-cases (service.create w.kernel (Calls.pulse_ticks service pulse_us) id).0) [
            | inl failed ↦ rw (missing, failed, software_pulse) (search keeping)
            | inr (h, made) ↦ rw (missing, made, software_pulse) (search keeping)
          ]
    ]

    stop_pulse-manager : (w : World K H) (id : ℕ) → (stop_pulse service w id).manager ≡ w.manager
    unfolding stop_pulse
    stop_pulse-manager w id = elim (Option-cases ((sensor_at w id).sw_timer)) [
      | inl missing ↦ rw (missing, stop_pulse) refl
      | inr (h, there) ↦ elim (Bool-cases ((sensor_at w id).timer_kind == software)) [
        | inl t ↦ rw (there, t, stop_pulse) refl
        | inr f ↦ rw (there, f, stop_pulse) refl
      ]
    ]

    drive-IsKept :
        (w : World K H) (id : ℕ) (level : Bool) (pulse_us : ℕ)
        → IsKept (λ u. u.manager) w.manager (drive service w id level pulse_us)
    unfolding drive hardware_pulse
    drive-IsKept w id level pulse_us =
        let e = stop_pulse-manager w id in search (keeping, software_pulse-IsKept) depth 8

    pub set_output-IsKept :
        (w : World K H) (id : ℕ) (values : List ℕ) (values_len : ℕ)
        → IsKept (λ u. u.manager) w.manager (set_output service w id values values_len)
    unfolding set_output
    set_output-IsKept w id values values_len = search (keeping, drive-IsKept) depth 8

    delete_timer-manager :
        (w : World K H) (h : Option H) → (delete_timer service w h).manager ≡ w.manager
    unfolding delete_timer
    delete_timer-manager w none = refl
    delete_timer-manager w (some h) = refl

    pub stop-IsKept :
        (w : World K H) (id : ℕ) → IsKept (λ u. u.manager) w.manager (stop service w id)
    unfolding stop detach
    stop-IsKept w id = search (keeping, delete_timer-manager)

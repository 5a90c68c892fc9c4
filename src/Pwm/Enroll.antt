-- ===== src/Pwm/Enroll.antt =====
-- What the calls of stm32/project/simulate/pwm/src/pwm_sensor.c do to the sensor table.
use hilglebone.Base.{ℕ, List}
use hilglebone.Manager.Table.{IsManager}
use hilglebone.Manager.Enroll.{IsEnrollment, enrollment, IsKept, keeping}
use hilglebone.Pwm.{World, Config}
use hilglebone.Pwm.Calls
use hilglebone.Pwm.Calls.{
  attach, setup_config, setup, set_output, stop, undo, configure, detach, protocol_id,
}

attach-IsEnrollment :
    (w : World) (c : Config) (idx : ℕ)
    → IsManager w.manager
    → IsEnrollment (λ u. u.manager) protocol_id w.manager (attach w c idx)
unfolding attach Calls.enroll undo configure
attach-IsEnrollment w c idx v = search enrollment

pub setup-IsEnrollment :
    (w : World) (cfg : List ℕ) (cfg_len : ℕ)
    → IsManager w.manager
    → IsEnrollment (λ u. u.manager) protocol_id w.manager (setup w cfg cfg_len)
unfolding setup setup_config
setup-IsEnrollment w cfg cfg_len v = search (enrollment, attach-IsEnrollment) depth 8

pub set_output-IsKept :
    (w : World) (id : ℕ) (values : List ℕ) (values_len : ℕ)
    → IsKept (λ u. u.manager) w.manager (set_output w id values values_len)
unfolding set_output
set_output-IsKept w id values values_len = search keeping

pub stop-IsKept : (w : World) (id : ℕ) → IsKept (λ u. u.manager) w.manager (stop w id)
unfolding stop detach
stop-IsKept w id = search keeping
